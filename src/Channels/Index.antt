-- ===== src/Channels/Index.antt =====
-- What the channel of dhcf/dh1cf.c depends on.
use c_modules.Base.{
  ne→==, ℕ, ◌+◌, ◌*◌, ◌<◌, ◌≤◌, ◌^◌, ◌%◌, ◌≡◌, refl, ap, ◌∙◌, sym, arith, bit_or, some,
}
use native.Mathlib.Nat.{mod-lt}
use c_modules.Base.Xor.{bit_or_above}
use c_modules.Channels.{Hashword, MacAddr, HashInput, mac_word, unicast_input, channel_number}

mac_word-sum :
    (a b c d : ℕ)
    → b < 256
    → c < 256
    → d < 256
    → mac_word a b c d ≡ ((a * 256 + b) * 256 + c) * 256 + d
unfolding mac_word
mac_word-sum a b c d hb hc hd =
    let first : bit_or (a * 2 ^ 24) (b * 2 ^ 16) ≡ (a * 256 + b) * 2 ^ 16 =
      bit_or_above 24 a (b * 2 ^ 16) (omega arith) ∙ omega arith in
    let second : bit_or ((a * 256 + b) * 2 ^ 16) (c * 2 ^ 8) ≡ ((a * 256 + b) * 256 + c) * 2 ^ 8 =
      bit_or_above 16 (a * 256 + b) (c * 2 ^ 8) (omega arith) ∙ omega arith in
    ap (λ t. bit_or (bit_or t (c * 2 ^ 8)) d) first
    ∙ ap (λ t. bit_or t d) second
    ∙ bit_or_above 8 ((a * 256 + b) * 256 + c) d (omega arith)

pub record IsMac (mac : MacAddr) : Type 0 where
  pub high : (mac.b0 < 256) × (mac.b1 < 256) × (mac.b2 < 256) × (mac.b3 < 256)
  pub low : (mac.b4 < 256) × (mac.b5 < 256) × (mac.b6 < 256) × (mac.b7 < 256)

mac_word-injective :
    (a b c d a' b' c' d' : ℕ)
    → (a < 256) × (b < 256) × (c < 256) × (d < 256)
    → (a' < 256) × (b' < 256) × (c' < 256) × (d' < 256)
    → mac_word a b c d ≡ mac_word a' b' c' d'
    → (a ≡ a') × (b ≡ b') × (c ≡ c') × (d ≡ d')
mac_word-injective a b c d a' b' c' d' (ha, hb, hc, hd) (ha', hb', hc', hd') e =
    let sums : ((a * 256 + b) * 256 + c) * 256 + d ≡ ((a' * 256 + b') * 256 + c') * 256 + d' =
      sym (mac_word-sum a b c d hb hc hd) ∙ e ∙ mac_word-sum a' b' c' d' hb' hc' hd' in
    (omega arith, omega arith, omega arith, omega arith)

-- Two slots and addresses of bytes that give the hash the same three words are the same.
pub unicast_input-injective :
    (slot slot' : ℕ) (mac mac' : MacAddr)
    → IsMac mac
    → IsMac mac'
    → unicast_input slot mac ≡ unicast_input slot' mac'
    → (slot ≡ slot') × (mac ≡ mac')
unfolding unicast_input
unicast_input-injective slot slot' mac mac' h h' e =
    let (e4, e5, e6, e7) =
      mac_word-injective mac.b4 mac.b5 mac.b6 mac.b7 mac'.b4 mac'.b5 mac'.b6 mac'.b7 h.low h'.low
        (ap (λ x. x.x1) e) in
    let (e0, e1, e2, e3) =
      mac_word-injective mac.b0 mac.b1 mac.b2 mac.b3 mac'.b0 mac'.b1 mac'.b2 mac'.b3 h.high h'.high
        (ap (λ x. x.x2) e) in
    (
      ap (λ x. x.x0) e,
      λ i. record {
        b0 = e0 i;
        b1 = e1 i;
        b2 = e2 i;
        b3 = e3 i;
        b4 = e4 i;
        b5 = e5 i;
        b6 = e6 i;
        b7 = e7 i;
      },
    )

-- With 1 to 65536 channels there is one, whatever the hash.
pub channel_number-below :
    (hashword : Hashword) (x : HashInput) (n : ℕ)
    → 0 < n
    → n ≤ 65536
    → (c : ℕ) × (channel_number hashword x n ≡ some c) × (c < n)
unfolding channel_number
channel_number-below hashword x n pos le =
    let hash = hashword x.x0 x.x1 x.x2 in
    let below : hash % n < n = mod-lt hash pos in
    let least : hash % n % 2 ^ 16 ≤ hash % n = omega arith in
    (hash % n % 2 ^ 16, rw (ne→== n 0 (omega arith)) refl, omega arith)
