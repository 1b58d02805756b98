-- ===== src/Prelude/Texts.antt =====
-- Texts put one behind the other with their lengths, so that they can be read again: the form in which the
-- tests give a library's messages.
use primihub.Prelude.{
  ℕ, zero, suc, ◌≡◌, refl, ap, List, [], ◌∷◌, ◌++◌, Bytes, length, take, drop, take-append_length,
  drop-append_length,
}

abbrev put_text : Bytes → Bytes → Bytes
put_text b r = length b ∷ (b ++ r)

abbrev put_texts : List Bytes → Bytes
put_texts [] = []
put_texts (b ∷ r) = put_text b (put_texts r)

abbrev get_texts : ℕ → Bytes → List Bytes
get_texts zero s = []
get_texts (suc n) [] = []
get_texts (suc n) (k ∷ s) = take k s ∷ get_texts n (drop k s)

abbrev pub put_list : List Bytes → Bytes
put_list xs = length xs ∷ put_texts xs

abbrev pub get_list : Bytes → List Bytes
get_list [] = []
get_list (n ∷ s) = get_texts n s

get_texts-put_texts : (xs : List Bytes) → get_texts (length xs) (put_texts xs) ≡ xs
get_texts-put_texts [] = refl
get_texts-put_texts (b ∷ r) =
    rw (take-append_length b (put_texts r), drop-append_length b (put_texts r))
      (ap (λ (l : List Bytes). b ∷ l) (get_texts-put_texts r))

pub get_list-put_list : (xs : List Bytes) → get_list (put_list xs) ≡ xs
get_list-put_list xs = get_texts-put_texts xs
