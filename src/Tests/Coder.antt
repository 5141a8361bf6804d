-- ===== src/Tests/Coder.antt =====
-- A self-delimiting binary format, put together type by type, and the codec that it makes.
use go_achat_node.Prelude.{
  ℕ, zero, suc, ◌≡◌, refl, sym, ap, ◌∙◌, Option, none, some, List, [], ◌∷◌, ◌++◌, Bytes, length,
  take, drop, take-append, drop-append, ℤ, pos, negsuc,
}
use mathlib.Core.List.{append_assoc, append-nil}
use go_achat_node.Types.Codecs.{Codec, CodecLaws}

pub record Coder (A : Type 0) : Type 0 where
  pub put : A → Bytes
  pub get : Bytes → A × Bytes
  pub get-put : (a : A) (rest : Bytes) → get (put a ++ rest) ≡ (a, rest)

unfoldable pub get_bytes : Bytes → Bytes × Bytes
get_bytes [] = ([], [])
get_bytes (n ∷ bs) = (take n bs, drop n bs)

unfoldable pub bytes : Coder Bytes
unfolding get_bytes
bytes = record {
  put = λ b. length b ∷ b;
  get = get_bytes;
  get-put = λ b rest. rw (take-append b rest, drop-append b rest);
}

unfoldable pub get_number : Bytes → ℕ × Bytes
get_number [] = (0, [])
get_number (n ∷ bs) = (n, bs)

unfoldable pub number : Coder ℕ
unfolding get_number
number = record { put = λ n. n ∷ []; get = get_number; get-put = λ n rest. refl }

unfoldable pub put_int : ℤ → Bytes
put_int (pos n) = 0 ∷ n ∷ []
put_int (negsuc n) = 1 ∷ n ∷ []

unfoldable pub get_int : Bytes → ℤ × Bytes
get_int (zero ∷ n ∷ bs) = (pos n, bs)
get_int (suc _ ∷ n ∷ bs) = (negsuc n, bs)
get_int _ = (pos 0, [])

pub get_int-put_int : (a : ℤ) (rest : Bytes) → get_int (put_int a ++ rest) ≡ (a, rest)
unfolding get_int put_int
get_int-put_int (pos n) rest = refl
get_int-put_int (negsuc n) rest = refl

unfoldable pub int : Coder ℤ
int = record { put = put_int; get = get_int; get-put = get_int-put_int }

module _ {A B : Type 0} (c : Coder A) (d : Coder B) where
  unfoldable pub pair : Coder (A × B)
  pair = record {
    put = λ p. c.put p.0 ++ d.put p.1;
    get = λ bs. (let (a, rest) = c.get bs in let (b, rest') = d.get rest in ((a, b), rest'));
    get-put = λ (a, b) rest.
        rw (append_assoc (c.put a) (d.put b) rest, c.get-put a (d.put b ++ rest), d.get-put b rest);
  }

module _ {A : Type 0} (c : Coder A) where
  unfoldable pub put_option : Option A → Bytes
  put_option none = 0 ∷ []
  put_option (some a) = 1 ∷ c.put a

  unfoldable pub get_option : Bytes → Option A × Bytes
  get_option (suc _ ∷ bs) = (let (a, rest) = c.get bs in (some a, rest))
  get_option (zero ∷ bs) = (none, bs)
  get_option [] = (none, [])

  pub get_option-put_option :
      (o : Option A) (rest : Bytes) → get_option (put_option o ++ rest) ≡ (o, rest)
  unfolding get_option put_option
  get_option-put_option none rest = refl
  get_option-put_option (some a) rest = rw (c.get-put a rest)

  unfoldable pub option : Coder (Option A)
  option = record { put = put_option; get = get_option; get-put = get_option-put_option }

  unfoldable pub put_items : List A → Bytes
  put_items [] = []
  put_items (a ∷ l) = c.put a ++ put_items l

  unfoldable pub get_items : ℕ → Bytes → List A × Bytes
  get_items zero bs = ([], bs)
  get_items (suc n) bs =
      let (a, rest) = c.get bs in let (l, rest') = get_items n rest in (a ∷ l, rest')

  pub get_items-put_items :
      (l : List A) (rest : Bytes) → get_items (length l) (put_items l ++ rest) ≡ (l, rest)
  unfolding get_items put_items
  get_items-put_items [] rest = refl
  get_items-put_items (a ∷ l) rest = rw (
    append_assoc (c.put a) (put_items l) rest,
    c.get-put a (put_items l ++ rest),
    get_items-put_items l rest,
  )

  unfoldable pub get_list : Bytes → List A × Bytes
  get_list [] = ([], [])
  get_list (n ∷ bs) = get_items n bs

  unfoldable pub list : Coder (List A)
  unfolding get_list
  list = record { put = λ l. length l ∷ put_items l; get = get_list; get-put = get_items-put_items }

-- The codec of a type whose wire content is a `B`.
module _ {A B : Type 0} (c : Coder B) (f : A → B) (g : B → A) where
  unfoldable pub codec : Codec A
  codec = record {
    marshal = λ a. (c.put (f a), none);
    unmarshal = λ bs. (g (c.get bs).0, none);
    read = λ limit bs. (g (c.get bs).0, none);
  }

  unfoldable pub codec-CodecLaws :
      {wire : A → A} → ((a : A) → g (f a) ≡ wire a) → CodecLaws codec wire
  unfolding codec
  codec-CodecLaws {wire} back = record {
    image = λ a. c.put (f a);
    marshal_eq = λ a. refl;
    unmarshal-image = λ a. ap (λ (x : A). (x, none)) (decoded a);
    read-image = λ limit a small. ap (λ (x : A). (x, none)) (decoded a);
  }
    where
      decoded : (a : A) → g (c.get (c.put (f a))).0 ≡ wire a
      decoded a =
          ap (λ (bs : Bytes). g (c.get bs).0) (sym (append-nil (c.put (f a))))
          ∙ ap (λ (p : B × Bytes). g p.0) (c.get-put (f a) [])
          ∙ back a
