-- ===== src/App/Fingerprint.antt =====
-- `pskFingerprint` of main.go: what is logged of the network id. The digest of sha256 is a parameter.
use Prim.Native.Nat.{◌/◌, ◌%◌}
use go_achat_node.Prelude.{
  ℕ, zero, suc, ◌+◌, ◌*◌, ◌≤◌, ◌<◌, ◌≡◌, ◌↔◌, refl, sym, ap, ◌∙◌, false, inl, inr, Option, none,
  some, [], ◌∷◌, Bytes, length, take, ltb, ◌==◌, if◌then◌else◌, ℤ, pos, negsuc, Outcome, ok, ok_inj,
  panic, Bool-cases, length-take, All, arith,
}

-- A digit of `hex.EncodeToString`
unfoldable pub hex_digit : ℕ → ℕ
hex_digit n = if ltb n 10 then n + 48 else n + 87

-- `hex.EncodeToString`
unfoldable pub hex : Bytes → Bytes
unfolding hex_digit
hex [] = []
hex (b ∷ bs) = hex_digit (b / 16) ∷ hex_digit (b % 16) ∷ hex bs

-- `Bytes` of a big integer: the bytes of its absolute value, the highest first. The fuel is the value.
big_bytes : ℕ → ℕ → Bytes → Bytes
big_bytes zero n out = out
big_bytes (suc fuel) n out =
    let rest = big_bytes fuel (n / 256) ((n % 256) ∷ out) in if n == 0 then out else rest

abs : ℤ → ℕ
abs (pos n) = n
abs (negsuc n) = suc n

unfoldable pub int_bytes : ℤ → Bytes
unfolding big_bytes abs
int_bytes i = big_bytes (abs i) (abs i) []

-- `pskFingerprint`: a slice that is too long panics.
unfoldable pub psk_fingerprint : (Bytes → Bytes) → Option ℤ → Outcome Bytes
psk_fingerprint sum256 none = ok []
psk_fingerprint sum256 (some network_id) =
    let s = hex (sum256 (int_bytes network_id)) in
    if ltb (length s) 12 then panic else ok (take 12 s)

length-hex : (bs : Bytes) → length (hex bs) ≡ 2 * length bs
unfolding hex
length-hex [] = omega arith
length-hex (b ∷ bs) = omega (arith, length-hex bs)

take-hex : (n : ℕ) (bs : Bytes) → take (2 * n) (hex bs) ≡ hex (take n bs)
unfolding hex
take-hex zero bs = refl
take-hex (suc n) [] = let e : 2 * suc n ≡ suc (suc (2 * n)) = omega arith in rw e refl
take-hex (suc n) (b ∷ bs) =
    let e : 2 * suc n ≡ suc (suc (2 * n)) = omega arith in rw e (rw (take-hex n bs) refl)

hex_digit_inj : (a b : ℕ) → a < 16 → b < 16 → hex_digit a ≡ hex_digit b → a ≡ b
unfolding hex_digit
hex_digit_inj a b h k e = ground arith

abbrev pub AreBytes : Bytes → Type 0
AreBytes bs = All (λ (b : ℕ). b < 256) bs

hex_inj : (a b : Bytes) → AreBytes a → AreBytes b → hex a ≡ hex b → a ≡ b
unfolding hex
hex_inj [] [] h k e = refl
hex_inj [] (y ∷ ys) h k e = cc
hex_inj (x ∷ xs) [] h k e = cc
hex_inj (x ∷ xs) (y ∷ ys) (hx, h) (hy, k) e =
    let high : hex_digit (x / 16) ≡ hex_digit (y / 16) = cc in
    let low : hex_digit (x % 16) ≡ hex_digit (y % 16) = cc in
    let rest : hex xs ≡ hex ys = cc in
    let high' = hex_digit_inj (x / 16) (y / 16) (omega arith) (omega arith) high in
    let low' = hex_digit_inj (x % 16) (y % 16) (omega arith) (omega arith) low in
    let same : x ≡ y = omega arith in let tails = hex_inj xs ys h k rest in cc

take-AreBytes : (n : ℕ) (bs : Bytes) → AreBytes bs → AreBytes (take n bs)
take-AreBytes zero bs h = tt
take-AreBytes (suc n) [] h = tt
take-AreBytes (suc n) (b ∷ bs) (hb, h) = (hb, take-AreBytes n bs h)

-- The number that bytes stand for, the highest first, after those that were read.
abbrev pub value : ℕ → Bytes → ℕ
value acc [] = acc
value acc (b ∷ bs) = value (acc * 256 + b) bs

value-big_bytes :
    (fuel n : ℕ) (out : Bytes) → n ≤ fuel → value 0 (big_bytes fuel n out) ≡ value n out
unfolding big_bytes
value-big_bytes zero n out h = let e : n ≡ 0 = omega arith in rw e refl
value-big_bytes (suc fuel) n out h = elim (Bool-cases (n == 0)) [
  | inl none_left ↦ (let e : n ≡ 0 = ground arith in rw e refl)
  | inr more ↦
      (let split : n / 256 * 256 + n % 256 ≡ n = omega arith in
        rw more (
          value-big_bytes fuel (n / 256) ((n % 256) ∷ out) (ground arith)
          ∙ ap (λ (k : ℕ). value k out) split))
]

-- What is hashed stands for the absolute value of the network id: an id and its negative are not told
-- apart.
pub value-int_bytes :
    (n : ℕ) → (value 0 (int_bytes (pos n)) ≡ n) × (value 0 (int_bytes (negsuc n)) ≡ suc n)
unfolding int_bytes
value-int_bytes n =
    (value-big_bytes n n [] (omega arith), value-big_bytes (suc n) (suc n) [] (omega arith))

-- A digest of sha256.
pub record IsDigest (bs : Bytes) : Type 0 where
  pub bytes : AreBytes bs
  pub size : length bs ≡ 32

fingerprint-eq :
    (sum256 : Bytes → Bytes) (i : ℤ)
    → IsDigest (sum256 (int_bytes i))
    → psk_fingerprint sum256 (some i) ≡ ok (hex (take 6 (sum256 (int_bytes i))))
unfolding psk_fingerprint
fingerprint-eq sum256 i d =
    let long : ltb (length (hex (sum256 (int_bytes i)))) 12 ≡ false =
      ground (arith, length-hex (sum256 (int_bytes i)), d.size) in
    rw long (ap (λ (l : Bytes). ok l) (take-hex 6 (sum256 (int_bytes i))))

-- The fingerprint of a network id has twelve bytes, and two ids have the same exactly when the first
-- six bytes of their digests are the same.
pub psk_fingerprint_lem :
    (sum256 : Bytes → Bytes) (i j : ℤ)
    → IsDigest (sum256 (int_bytes i))
    → IsDigest (sum256 (int_bytes j))
    → ((f : Bytes) × (psk_fingerprint sum256 (some i) ≡ ok f) × (length f ≡ 12))
      × (psk_fingerprint sum256 (some i) ≡ psk_fingerprint sum256 (some j)
          ↔ take 6 (sum256 (int_bytes i)) ≡ take 6 (sum256 (int_bytes j)))
psk_fingerprint_lem sum256 i j d e =
    let fi = fingerprint-eq sum256 i d in
    let fj = fingerprint-eq sum256 j e in
    (
      (
        _,
        fi,
        omega (
          arith,
          length-hex (take 6 (sum256 (int_bytes i))),
          length-take 6 (sum256 (int_bytes i)) (omega (arith, d.size)),
        ),
      ),
      (
        λ h.
            hex_inj _ _ (take-AreBytes 6 _ d.bytes) (take-AreBytes 6 _ e.bytes)
              (ok_inj _ _ (sym fi ∙ h ∙ fj)),
        λ h. fi ∙ ap (λ (l : Bytes). ok (hex l)) h ∙ sym fj,
      ),
    )
