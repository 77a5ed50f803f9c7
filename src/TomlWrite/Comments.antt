-- ===== src/TomlWrite/Comments.antt =====
-- What `_rewrite_head` of backend/tomlwrite.py keeps of a document that a person wrote.
use mathlib.Core.Path.{subst}
use sqlide.Common.{
  ℕ, zero, suc, true, false, none, some, List, [], ◌∷◌, ◌≡◌, refl, sym, ap, ◌∙◌, get_elem?,
}
use sqlide.Common.Text.{Str, CharTable, strip}
use sqlide.TomlWrite.{Document, is_blank}
use sqlide.TomlWrite.Merge.{
  is_comment, is_space, known_row, rewritten, rewrite_rows, drop_space, trimmed, rewrite_head,
  starts_with_char,
}

module _ (u : CharTable) where
  is_comment-is_space : (row : Str) → is_comment u row ≡ true → is_space u row ≡ false
  is_comment-is_space row h = not_blank (strip u row) h
    where
      not_blank : (s : Str) → starts_with_char b'#' s ≡ true → is_blank s ≡ false
      not_blank [] h = absurd (cc)
      not_blank (c ∷ s) h = refl

  trimmed-get_elem? :
      (rows : List Str) (i : ℕ) (row : Str)
      → is_space u row ≡ false
      → get_elem? rows i ≡ some row
      → get_elem? (trimmed u rows) i ≡ some row
  unfolding trimmed
  trimmed-get_elem? [] i row full h = absurd (cc)
  trimmed-get_elem? (r ∷ rows) zero row full h =
      let e : r ≡ row = cc in
      let g : is_space u r ≡ false = subst (λ x. is_space u x ≡ false) (sym e) full in
      first r (trimmed u rows) g ∙ h
    where
      first :
          (r : Str) (rest : List Str)
          → is_space u r ≡ false
          → get_elem? (drop_space u r rest) 0 ≡ some r
      first r [] g = rw g refl
      first r (q ∷ rest) g = refl
  trimmed-get_elem? (r ∷ rows) (suc i) row full h =
      later r (trimmed u rows) i (trimmed-get_elem? rows i row full h)
    where
      later :
          (r : Str) (rest : List Str) (i : ℕ)
          → get_elem? rest i ≡ some row
          → get_elem? (drop_space u r rest) (suc i) ≡ some row
      later r [] i k = absurd (cc)
      later r (q ∷ rest) i k = k

  rewrite_rows-get_elem? :
      (doc : Document) (rows : List Str) (i : ℕ) (row : Str)
      → known_row u doc row ≡ none
      → get_elem? rows i ≡ some row
      → get_elem? (rewrite_rows u doc rows) i ≡ some row
  unfolding rewrite_rows
  rewrite_rows-get_elem? doc [] i row free h = absurd (cc)
  rewrite_rows-get_elem? doc (r ∷ rows) zero row free h =
      let e : r ≡ row = cc in
      let g : known_row u doc r ≡ none = subst (λ x. known_row u doc x ≡ none) (sym e) free in
      ap (λ o. some (rewritten u r o)) g ∙ h
  rewrite_rows-get_elem? doc (r ∷ rows) (suc i) row free h =
      rewrite_rows-get_elem? doc rows i row free h

  comment-known_row :
      (doc : Document) (row : Str) → is_comment u row ≡ true → known_row u doc row ≡ none
  unfolding known_row
  comment-known_row doc row h = rw (h, is_comment-is_space row h) refl

  -- A comment among the lines that the rewriting of a head is given is at the same position in the
  -- lines that it gives, word for word, whatever values are written.
  pub rewrite_head-get_elem? :
      (doc : Document) (head : List Str) (i : ℕ) (row : Str)
      → is_comment u row ≡ true
      → get_elem? head i ≡ some row
      → get_elem? (rewrite_head u doc head).0 i ≡ some row
  unfolding rewrite_head
  rewrite_head-get_elem? doc head i row h k =
      trimmed-get_elem? (rewrite_rows u doc head) i row (is_comment-is_space row h)
        (rewrite_rows-get_elem? doc head i row (comment-known_row doc row h) k)
