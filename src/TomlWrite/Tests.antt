-- ===== src/TomlWrite/Tests.antt =====
-- Documents that backend/tomlwrite.py writes, and the theorems at concrete ones.
use sqlide.Common.{
  ℕ, Bool, true, false, Option, none, some, List, [], ◌∷◌, ◌++◌, ◌≡◌, refl, get_elem?,
}
use sqlide.Common.Text.{Str, codes, words, ascii, split_on}
use sqlide.TomlWrite.{Item, text, truth, plain, scalar, table, Document, Table, value, dumps}
use sqlide.TomlWrite.Merge.{merge, rewrite_head}
use sqlide.TomlWrite.Text.{read_basic, quoted-IsRead}
use sqlide.TomlWrite.Comments.{rewrite_head-get_elem?}

abbrev settings : Document
settings = (codes "dark", scalar (truth true)) ∷ []

abbrev head : List Str
head = words ("# looks" ∷ "dark = false" ∷ "" ∷ [])

quoted-IsRead_example :
    (body : Str) × (value (text (codes "a\"b\\")) ≡ b'"' ∷ body)
    × (read_basic false (body ++ codes "\n") ≡ some (codes "a\"b\\", codes "\n"))
quoted-IsRead_example =
    quoted-IsRead (codes "a\"b\\") (codes "\n") (refl, (refl, (refl, (refl, tt))))

rewrite_head-get_elem?_example :
    get_elem? (rewrite_head ascii settings head).0 0 ≡ some (codes "# looks")
unfolding sqlide.Common.Text.strip_by
rewrite_head-get_elem?_example =
    rewrite_head-get_elem? ascii settings head 0 (codes "# looks") refl refl

-- `splitlines` of a text with no other line end than `\n`, and one at its end.
unfoldable without_last : Str → List Str → List Str
without_last part [] = []
without_last part (next ∷ rest) = part ∷ without_last next rest

abbrev lines_of : Str → List Str
lines_of s = without_last (split_on b'\n' s).0 (split_on b'\n' s).1

abbrev keymap : Document
keymap = (codes "a", table []) ∷ (codes "b", table []) ∷ []

-- The comment above the first table stays, the one above the second is lost.
comment_lost :
    merge ascii lines_of (codes "# one\n[a]\n# two\n[b]\n") keymap ≡ codes "# one\n[a]\n[b]\n"
unfolding merge without_last sqlide.TomlWrite.table_lines
comment_lost = refl
