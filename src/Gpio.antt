-- ===== src/Gpio.antt =====
-- gpio-spi/spi_gpio.c: a serial peripheral bus on the pins of a Ralink processor, driven through the
-- requests of its GPIO driver.
pub mod Requests
pub mod Bus
mod Examples
