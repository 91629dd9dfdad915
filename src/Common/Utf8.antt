-- ===== src/Common/Utf8.antt =====
-- `TextEncoder` and `TextDecoder`: UTF-16 texts as UTF-8 bytes and back, as the Encoding Standard
-- has them. A lone surrogate and a byte sequence that is no UTF-8 become U+FFFD, and the decoder
-- drops a byte order mark in front.
use Prim.Native.Nat.{ℕ, ◌+◌, ◌-◌, ◌*◌, ◌/◌, ◌%◌, ◌<◌}
use mathlib.Core.Path.{◌≡◌, refl, ap, ◌∙◌}
use mathlib.Core.Logic.{inl, inr}
use mathlib.Core.Bool.{Bool, true, false, not, ◌&&◌, ◌||◌}
use mathlib.Core.Option.{Option, none, some}
use mathlib.Core.List.{List, [], ◌∷◌, ◌++◌}
use native.Mathlib.Omega.{arith}
use gatehouse.Common.Tests.{ltb, leb, ◌==◌, if◌then◌else◌, Bool-cases, &&-left, &&-right, ltb→lt}
use gatehouse.Common.Strings.{Text, text_eq, text_eq_iff}

abbrev pub Bytes : Type 0
Bytes = List ℕ

abbrev replacement : ℕ
replacement = 65533

abbrev is_high : ℕ → Bool
is_high c = leb 55296 c && leb c 56319

abbrev is_low : ℕ → Bool
is_low c = leb 56320 c && leb c 57343

-- A code unit on its own, or the high surrogate that waits for its other half.
abbrev alone : ℕ → List ℕ × Option ℕ
alone c =
    if is_high c
    then ([], some c)
    else if is_low c
    then (replacement ∷ [], none)
    else (c ∷ [], none)

-- The code points that a unit completes, and the high surrogate that then waits.
abbrev unit_step : Option ℕ → ℕ → List ℕ × Option ℕ
unit_step none c = alone c
unit_step (some h) c =
    if is_low c
    then ((65536 + (h - 55296) * 1024 + (c - 56320)) ∷ [], none)
    else (replacement ∷ (alone c).0, (alone c).1)

unfoldable pub points_from : Option ℕ → Text → List ℕ
points_from none [] = []
points_from (some h) [] = replacement ∷ []
points_from waiting (c ∷ s) = let (out, next) = unit_step waiting c in out ++ points_from next s

abbrev pub encode_point : ℕ → Bytes
encode_point p =
    if ltb p 128
    then p ∷ []
    else if ltb p 2048
    then (192 + p / 64) ∷ (128 + p % 64) ∷ []
    else if ltb p 65536
    then (224 + p / 4096) ∷ (128 + p / 64 % 64) ∷ (128 + p % 64) ∷ []
    else (240 + p / 262144) ∷ (128 + p / 4096 % 64) ∷ (128 + p / 64 % 64) ∷ (128 + p % 64) ∷ []

unfoldable pub encode_points : List ℕ → Bytes
encode_points [] = []
encode_points (p ∷ ps) = encode_point p ++ encode_points ps

unfoldable pub encode : Text → Bytes
unfolding points_from encode_points
encode text = encode_points (points_from none text)

-- Between code points, or inside one: the bytes that are missing, the bits so far, and the range of
-- the next byte.
pub data Decoding : Type 0 where
  start : Decoding
  need : ℕ → ℕ → ℕ → ℕ → Decoding

abbrev lead : ℕ → List ℕ × Decoding
lead b =
    if ltb b 128
    then (b ∷ [], start)
    else if leb 194 b && leb b 223
    then ([], need 1 (b - 192) 128 191)
    else if leb 224 b && leb b 239
    then ([], need 2 (b - 224) (if b == 224 then 160 else 128) (if b == 237 then 159 else 191))
    else if leb 240 b && leb b 244
    then ([], need 3 (b - 240) (if b == 240 then 144 else 128) (if b == 244 then 143 else 191))
    else (replacement ∷ [], start)

-- A byte out of the range ends the sequence and is read again.
abbrev byte_step : Decoding → ℕ → List ℕ × Decoding
byte_step start b = lead b
byte_step (need n bits lower upper) b =
    if leb lower b && leb b upper
    then (if n == 1
        then ((bits * 64 + (b - 128)) ∷ [], start)
        else ([], need (n - 1) (bits * 64 + (b - 128)) 128 191))
    else (replacement ∷ (lead b).0, (lead b).1)

unfoldable pub decode_from : Decoding → Bytes → List ℕ
decode_from start [] = []
decode_from (need n bits lower upper) [] = replacement ∷ []
decode_from d (b ∷ bs) = let (out, next) = byte_step d b in out ++ decode_from next bs

abbrev units : ℕ → Text
units p =
    if ltb p 65536 then p ∷ [] else (55296 + (p - 65536) / 1024) ∷ (56320 + (p - 65536) % 1024) ∷ []

unfoldable pub all_units : List ℕ → Text
all_units [] = []
all_units (p ∷ ps) = units p ++ all_units ps

abbrev drop_bom : List ℕ → List ℕ
drop_bom [] = []
drop_bom (p ∷ ps) = if p == 65279 then ps else p ∷ ps

unfoldable pub decode : Bytes → Text
unfolding decode_from all_units
decode bytes = all_units (drop_bom (decode_from start bytes))

-- Every unit has 16 bits, no surrogate is alone, and no byte order mark stands in front.
abbrev all_16_bits : Text → Bool
all_16_bits [] = true
all_16_bits (c ∷ s) = ltb c 65536 && all_16_bits s

abbrev has_bom : Text → Bool
has_bom [] = false
has_bom (c ∷ s) = c == 65279

unfoldable pub is_plain_text : Text → Bool
unfolding points_from all_units
is_plain_text t = all_16_bits t && not (has_bom t) && text_eq (all_units (points_from none t)) t

abbrev is_point : ℕ → Bool
is_point p = ltb p 55296 || leb 57344 p && ltb p 1114112

decode-point1 :
    (p : ℕ) (rest : Bytes)
    → p < 128
    → decode_from start (encode_point p ++ rest) ≡ p ∷ decode_from start rest
unfolding decode_from
decode-point1 p rest h = ground arith

decode-point2 :
    (p : ℕ) (rest : Bytes)
    → ltb p 128 ≡ false
    → p < 2048
    → decode_from start (encode_point p ++ rest) ≡ p ∷ decode_from start rest
unfolding decode_from
decode-point2 p rest h h' = ground arith

decode-point3 :
    (p : ℕ) (rest : Bytes)
    → ltb p 2048 ≡ false
    → p < 65536
    → is_point p ≡ true
    → decode_from start (encode_point p ++ rest) ≡ p ∷ decode_from start rest
unfolding decode_from
decode-point3 p rest h h' v = ground arith

decode-point4 :
    (p : ℕ) (rest : Bytes)
    → ltb p 65536 ≡ false
    → p < 1114112
    → decode_from start (encode_point p ++ rest) ≡ p ∷ decode_from start rest
unfolding decode_from
decode-point4 p rest h v = ground arith

decode-point :
    (p : ℕ) (rest : Bytes)
    → is_point p ≡ true
    → decode_from start (encode_point p ++ rest) ≡ p ∷ decode_from start rest
decode-point p rest v = elim (Bool-cases (ltb p 128)) [
  | inl h ↦ decode-point1 p rest (ltb→lt p 128 h)
  | inr h ↦ elim (Bool-cases (ltb p 2048)) [
    | inl h' ↦ decode-point2 p rest h (ltb→lt p 2048 h')
    | inr h' ↦ elim (Bool-cases (ltb p 65536)) [
      | inl h'' ↦ decode-point3 p rest h' (ltb→lt p 65536 h'') v
      | inr h'' ↦ decode-point4 p rest h'' (ground arith)
    ]
  ]
]

abbrev all_points : List ℕ → Bool
all_points [] = true
all_points (p ∷ ps) = is_point p && all_points ps

decode_from-encode_points :
    (ps : List ℕ) → all_points ps ≡ true → decode_from start (encode_points ps) ≡ ps
unfolding encode_points
decode_from-encode_points [] h = unfold decode_from in refl
decode_from-encode_points (p ∷ ps) h =
    decode-point p (encode_points ps) (&&-left (is_point p) (all_points ps) h)
    ∙ ap (λ qs. p ∷ qs) (decode_from-encode_points ps (&&-right (is_point p) (all_points ps) h))

-- A high surrogate waits, if anything does.
abbrev waits_high : Option ℕ → Bool
waits_high none = true
waits_high (some h) = is_high h

points_from-all_points :
    (w : Option ℕ) (t : Text)
    → waits_high w ≡ true
    → all_16_bits t ≡ true
    → all_points (points_from w t) ≡ true
unfolding points_from
points_from-all_points none [] h b = refl
points_from-all_points (some x) [] h b = refl
points_from-all_points none (c ∷ t) h b =
    ground (arith, points_from-all_points none t, points_from-all_points (some c) t)
points_from-all_points (some x) (c ∷ t) h b =
    ground (arith, points_from-all_points none t, points_from-all_points (some c) t)

drop_bom-waiting : (x : ℕ) (t : Text) → drop_bom (points_from (some x) t) ≡ points_from (some x) t
unfolding points_from
drop_bom-waiting x [] = refl
drop_bom-waiting x (c ∷ t) = ground arith

drop_bom-points :
    (t : Text) → has_bom t ≡ false → drop_bom (points_from none t) ≡ points_from none t
unfolding points_from
drop_bom-points [] h = refl
drop_bom-points (c ∷ t) h = ground (arith, drop_bom-waiting c t)

-- A text of whole characters that does not start with a byte order mark is read back as it was.
pub decode-encode : (t : Text) → is_plain_text t ≡ true → decode (encode t) ≡ t
unfolding decode encode is_plain_text
decode-encode t h =
    let points = points_from none t in
    let valid = points_from-all_points none t refl (ground (arith, h)) in
    rw (decode_from-encode_points points valid, drop_bom-points t (ground (arith, h)))
      ((text_eq_iff (all_units points) t).0 (ground (arith, h)))
