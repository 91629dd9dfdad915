-- ===== src/Address/Subnet.antt =====
-- auth/cidr.ts: the masks of IPv4 networks compare exactly the leading bits.
use gatehouse.Common.{
  ℕ, zero, suc, ◌+◌, ◌-◌, ◌*◌, ◌/◌, ◌%◌, ◌^◌, ◌≤◌, ◌<◌, ◌≡◌, ◌↔◌, inl, inr, refl, sym, ◌∙◌, Bool,
  true, ◌&&◌, ◌==◌, ==_iff, subst, arith, Bool-cases,
}
use gatehouse.Address.Cidr.{bit_and, mask_v4, in_subnet_v4}

-- The bits of `a` above the last `k`.
unfoldable pub leading : ℕ → ℕ → ℕ
leading zero a = a
leading (suc k) a = leading k (a / 2)

abbrev ones : ℕ → ℕ
ones zero = 0
ones (suc w) = 1 + 2 * ones w

-- `k` zero bits below `w` ones.
abbrev shifted : ℕ → ℕ → ℕ
shifted zero w = ones w
shifted (suc k) w = 2 * shifted k w

abbrev doubled : ℕ → ℕ → ℕ
doubled zero a = a
doubled (suc k) a = 2 * doubled k a

abbrev wider : ℕ → ℕ → ℕ
wider zero w = w
wider (suc k) w = suc (wider k w)

bit_and-ones : (w a : ℕ) → leading w a ≡ 0 → bit_and w a (ones w) ≡ a
unfolding bit_and leading
bit_and-ones zero a h = omega (arith, h)
bit_and-ones (suc w) a h =
    let odd : (1 + 2 * ones w) % 2 ≡ 1 = omega arith in
    let half : (1 + 2 * ones w) / 2 ≡ ones w = omega arith in
    let rest = bit_and-ones w (a / 2) h in rw (odd, half, rest) (omega arith)

bit_and-shifted :
    (k w a : ℕ)
    → leading (wider k w) a ≡ 0
    → bit_and (wider k w) a (shifted k w) ≡ doubled k (leading k a)
unfolding bit_and leading
bit_and-shifted zero w a h = bit_and-ones w a h
bit_and-shifted (suc k) w a h =
    let even : 2 * shifted k w % 2 ≡ 0 = omega arith in
    let half : 2 * shifted k w / 2 ≡ shifted k w = omega arith in
    let rest = bit_and-shifted k w (a / 2) h in rw (even, half, rest) (omega arith)

doubled-inj : (k a b : ℕ) → doubled k a ≡ doubled k b → a ≡ b
doubled-inj zero a b h = h
doubled-inj (suc k) a b h = doubled-inj k a b (omega arith)

leading-zero : (k a : ℕ) → a < doubled k 1 → leading k a ≡ 0
unfolding leading
leading-zero zero a h = omega arith
leading-zero (suc k) a h = leading-zero k (a / 2) (omega arith)

abbrev mask_agrees : ℕ → Bool
mask_agrees len = mask_v4 len == shifted (32 - len) len && (wider (32 - len) len == 32)

abbrev all_to : ℕ → (ℕ → Bool) → Bool
all_to zero p = p 0
all_to (suc n) p = p (suc n) && all_to n p

all_to_sound : (n m : ℕ) (p : ℕ → Bool) → all_to n p ≡ true → m ≤ n → p m ≡ true
all_to_sound zero m p h le = ground (arith, h)
all_to_sound (suc n) m p h le = ground (arith, all_to_sound n m p)

masks_agree : all_to 32 mask_agrees ≡ true
unfolding mask_v4
masks_agree = refl

mask_v4-shifted : (len : ℕ) → len ≤ 32 → mask_agrees len ≡ true
mask_v4-shifted len le = all_to_sound 32 len mask_agrees masks_agree le

masked :
    (len a : ℕ)
    → len ≤ 32
    → a < 4294967296
    → bit_and 32 a (mask_v4 len) ≡ doubled (32 - len) (leading (32 - len) a)
masked len a le small =
    let both = mask_v4-shifted len le in
    let mask : mask_v4 len ≡ shifted (32 - len) len = ground (arith, both) in
    let width : wider (32 - len) len ≡ 32 = ground (arith, both) in
    let all : bit_and (wider (32 - len) len) a (shifted (32 - len) len)
        ≡ doubled (32 - len) (leading (32 - len) a) =
      bit_and-shifted (32 - len) len a (rw width (leading-zero 32 a small)) in
    rw mask (
      subst (λ w. bit_and w a (shifted (32 - len) len) ≡ doubled (32 - len) (leading (32 - len) a))
        width all)

-- For two 32-bit addresses and a prefix length up to 32, the masks of the code hold the addresses to
-- be in one network exactly when they agree on all but their last 32 - length bits.
pub in_subnet_v4-SharesPrefix :
    (ip net len : ℕ)
    → ip < 2 ^ 32
    → net < 2 ^ 32
    → len ≤ 32
    → (in_subnet_v4 ip net len ≡ true) ↔ (leading (32 - len) ip ≡ leading (32 - len) net)
unfolding in_subnet_v4
in_subnet_v4-SharesPrefix ip net len si sn le =
    let mi = masked len ip le si in
    let mn = masked len net le sn in
    elim (Bool-cases (len == 0)) [
      | inl everything ↦
          let e = (==_iff len 0).0 everything in
          rw e (λ h. leading-zero 32 ip si ∙ sym (leading-zero 32 net sn), λ h. refl)
      | inr some_bits ↦
          rw (some_bits, mi, mn)
            ((λ h. doubled-inj (32 - len) _ _ ((==_iff _ _).0 h)), λ h. (==_iff _ _).1 (rw h refl))
    ]
