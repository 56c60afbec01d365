-- ===== src/Channels/Examples.antt =====
-- The first address of dhcf/main.c.
use c_modules.Base.{ℕ, ◌≡◌, refl, arith}
use c_modules.Channels.{MacAddr}
use c_modules.Channels.Index.{IsMac, unicast_input-injective}

abbrev mac : MacAddr
mac = record { b0 = 0; b1 = 19; b2 = 80; b3 = 4; b4 = 0; b5 = 0; b6 = 5; b7 = 248 }

abbrev slot : ℕ
slot = 10738

mac-IsMac : IsMac mac
mac-IsMac = record {
  high = (omega arith, omega arith, omega arith, omega arith);
  low = (omega arith, omega arith, omega arith, omega arith);
}

unicast_input-injective_example : (slot ≡ slot) × (mac ≡ mac)
unicast_input-injective_example = unicast_input-injective slot slot mac mac mac-IsMac mac-IsMac refl
