-- ===== src/Channels.antt =====
-- dhcf/dh1cf.c: the channel of a radio schedule, by a hash of three words. The hash of dhcf/lookup3.c,
-- a copy of another library, is a parameter.
pub mod Index
mod Examples
use c_modules.Base.{
  ℕ, ◌*◌, ◌%◌, ◌^◌, ◌==◌, if◌then◌else◌, bit_or, Option, none, some, List, [], ◌∷◌,
}

-- hashword of three words, from their values.
abbrev pub Hashword : Type 0
Hashword = (x0 x1 x2 : ℕ) → ℕ

-- The bytes of an EUI-64 address.
pub record MacAddr : Type 0 where
  pub b0 : ℕ
  pub b1 : ℕ
  pub b2 : ℕ
  pub b3 : ℕ
  pub b4 : ℕ
  pub b5 : ℕ
  pub b6 : ℕ
  pub b7 : ℕ

-- x, the array that is hashed.
pub record HashInput : Type 0 where
  pub x0 : ℕ
  pub x1 : ℕ
  pub x2 : ℕ

unfoldable pub mac_word : (a b c d : ℕ) → ℕ
mac_word a b c d = bit_or (bit_or (bit_or (a * 2 ^ 24) (b * 2 ^ 16)) (c * 2 ^ 8)) d

unfoldable pub unicast_input : (slot_number : ℕ) → MacAddr → HashInput
unfolding mac_word
unicast_input slot_number mac = record {
  x0 = slot_number;
  x1 = mac_word mac.b4 mac.b5 mac.b6 mac.b7;
  x2 = mac_word mac.b0 mac.b1 mac.b2 mac.b3;
}

unfoldable pub broadcast_input : (slot_number broadcast_sched_id : ℕ) → HashInput
broadcast_input slot_number broadcast_sched_id = record {
  x0 = slot_number;
  x1 = broadcast_sched_id * 2 ^ 16;
  x2 = 0;
}

-- The remainder, for a number of channels that is not negative, cut to 16 bits; `none` is a division
-- by zero.
unfoldable pub channel_number : Hashword → HashInput → (n_channels : ℕ) → Option ℕ
channel_number hashword x n_channels =
    if n_channels == 0 then none else some (hashword x.x0 x.x1 x.x2 % n_channels % 2 ^ 16)

unfoldable pub get_unicast_channel_index :
    Hashword → (slot_number : ℕ) → MacAddr → (n_channels : ℕ) → Option ℕ
unfolding unicast_input channel_number
get_unicast_channel_index hashword slot_number mac n_channels =
    channel_number hashword (unicast_input slot_number mac) n_channels

unfoldable pub get_broadcast_channel_index :
    Hashword → (slot_number broadcast_sched_id n_channels : ℕ) → Option ℕ
unfolding broadcast_input channel_number
get_broadcast_channel_index hashword slot_number broadcast_sched_id n_channels =
    channel_number hashword (broadcast_input slot_number broadcast_sched_id) n_channels
