-- ===== src/Tests/Fingerprint.antt =====
-- A stand-in for the digest, and the theorem on fingerprints.
use Prim.Native.Nat.{◌%◌}
use go_achat_node.Prelude.{
  ℕ, zero, suc, ◌≡◌, ◌↔◌, refl, some, [], ◌∷◌, Bytes, length, take, pos, ok, arith,
}
use go_achat_node.App.Fingerprint.{int_bytes, IsDigest, psk_fingerprint, psk_fingerprint_lem}

abbrev zeros : ℕ → Bytes
zeros zero = []
zeros (suc n) = 0 ∷ zeros n

-- The first byte, and zeros.
abbrev digest : Bytes → Bytes
digest [] = zeros 32
digest (b ∷ bs) = (b % 256) ∷ zeros 31

digest-IsDigest : (bs : Bytes) → IsDigest (digest bs)
digest-IsDigest [] = record { bytes = omega arith; size = refl }
digest-IsDigest (b ∷ bs) = record { bytes = omega arith; size = refl }

psk_fingerprint_lem_example :
    ((f : Bytes) × (psk_fingerprint digest (some (pos 1)) ≡ ok f) × (length f ≡ 12))
    × (psk_fingerprint digest (some (pos 1)) ≡ psk_fingerprint digest (some (pos 257))
        ↔ take 6 (digest (int_bytes (pos 1))) ≡ take 6 (digest (int_bytes (pos 257))))
psk_fingerprint_lem_example =
    psk_fingerprint_lem digest (pos 1) (pos 257) (digest-IsDigest (int_bytes (pos 1)))
      (digest-IsDigest (int_bytes (pos 257)))
