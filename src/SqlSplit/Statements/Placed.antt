-- ===== src/SqlSplit/Statements/Placed.antt =====
-- Where the statements of a script stand in it.
use mathlib.Core.Path.{subst, subst₂}
use mathlib.Core.List.{append-nil}
use sqlide.Common.{
  ℕ, zero, suc, ◌+◌, ◌-◌, ◌≤◌, ◌<◌, true, not, ◌&&◌, ◌||◌, Option, none, some, List, [], ◌∷◌, ◌++◌,
  ◌≡◌, refl, sym, ◌≢◌, inl, inr, arith, ◌==◌, leb, if◌then◌else◌, Bool-cases, Option-cases,
  first_case_ind, length, get_elem?, drop, drop-drop, get_elem?-lt,
}
use sqlide.Common.Text.{
  Str, codes, CharTable, IsPython, find, find_here, starts_with, str_eq, is_one_of, words, slice,
  length-slice, strip, lstrip, remove_suffix, to_upper,
}
use sqlide.SqlSplit.Scan.{
  Dialect, word_end, word_end-le, quoted_end, quoted_end-le, dollar_delimiter, dollar_delimiter-le,
  peek_word,
}
use sqlide.SqlSplit.Lex.Cuts.{word_pos, starts_with-room}
use sqlide.SqlSplit.Statements.Strips.{
  Heads, Heads-trans, Heads-drop-take, Heads-length, Heads-slice, lstrip_by-drop, lstrip_by-length,
  lstrip_by-Heads_self, strip_by-Heads, remove_suffix-Heads,
}
use sqlide.SqlSplit.Statements.{
  Statement, Segment, Step, quiet, content, end_or, close_segment, terminator_step, delimiter_step,
  end_step, keyword_step, word_step, plain_step, dollar_step, step, split_from, split_statements,
  initial, first_or, or_semicolon,
}

-- The statement lies behind `lo` and within the script, and its text stands verbatim at its start.
pub record IsPlaced (sql : Str) (lo : ℕ) (s : Statement) : Type 0 where
  pub behind : lo ≤ s.start
  pub text_fits : s.start + length s.text ≤ s.stop
  pub within : s.stop ≤ length sql
  pub verbatim : slice sql s.start (s.start + length s.text) ≡ s.text

-- Placed statements in the order of the script, none overlapping the one before it.
pub data InOrder (sql : Str) : ℕ → List Statement → Type 0 where
  done : {lo : ℕ} → InOrder sql lo []
  placed :
      {lo : ℕ} {s : Statement} {rest : List Statement}
      → IsPlaced sql lo s
      → InOrder sql s.stop rest
      → InOrder sql lo (s ∷ rest)

InOrder-le :
    {sql : Str} {hi : ℕ} {xs : List Statement} (lo : ℕ)
    → lo ≤ hi
    → InOrder sql hi xs
    → InOrder sql lo xs
InOrder-le lo h done = done
InOrder-le lo h (placed p r) =
    placed
      (record {
        behind = omega (arith, p.behind);
        text_fits = p.text_fits;
        within = p.within;
        verbatim = p.verbatim;
      })
      r

-- What a round keeps of the variables of the loop.
record Fits (sql : Str) (i : ℕ) (seg : Segment) (s : Step) : Type 0 where
  grows : i < s.next
  before : s.seg.seg_start ≤ s.next
  inside : s.seg.seg_start ≤ length sql
  named : 0 < length s.seg.terminator
  prepend :
      (rest : List Statement)
      → InOrder sql s.seg.seg_start rest
      → InOrder sql seg.seg_start (s.out ++ rest)

module _ (u : CharTable) (sql : Str) (seg : Segment) where
  -- The text of a closed segment stands at the front of what is left of the script.
  text-Heads : (raw term : Str) → Heads (strip u (remove_suffix term (strip u raw))) (lstrip u raw)
  text-Heads raw term =
      let cut = remove_suffix term (strip u raw) in
      let front =
        Heads-trans (remove_suffix-Heads term (strip u raw)) (strip_by-Heads u.is_space raw) in
      Heads-trans
        (rw (lstrip_by-Heads_self u.is_space cut raw front) at (strip_by-Heads u.is_space cut))
        front

  closed-IsPlaced :
      (stop : ℕ)
      → seg.seg_start ≤ stop
      → stop ≤ length sql
      → let raw = slice sql seg.seg_start stop in
        IsPlaced sql seg.seg_start (record {
          text = strip u (remove_suffix seg.terminator (strip u raw));
          start = seg.seg_start + (length raw - length (lstrip u raw));
          stop = stop;
        })
  closed-IsPlaced stop h k =
      let raw = slice sql seg.seg_start stop in
      let front = text-Heads raw seg.terminator in
      let skipped = length raw - length (lstrip u raw) in
      record {
        behind = omega arith;
        text_fits = omega (
          arith,
          Heads-length front,
          length-slice sql seg.seg_start stop h k,
          lstrip_by-length u.is_space raw,
        );
        within = k;
        verbatim = Heads-slice sql (seg.seg_start + skipped) (
            Heads-trans front (
              subst₂ Heads (sym (lstrip_by-drop u.is_space raw))
                (drop-drop skipped seg.seg_start sql)
                (Heads-drop-take skipped (stop - seg.seg_start) (drop seg.seg_start sql))));
      }

  close_segment-InOrder :
      (stop : ℕ) (rest : List Statement)
      → seg.seg_start ≤ stop
      → stop ≤ length sql
      → InOrder sql stop rest
      → InOrder sql seg.seg_start (close_segment u sql seg stop ++ rest)
  unfolding close_segment
  close_segment-InOrder stop rest h k r = elim (Bool-cases seg.has_content) [
    | inl e ↦ rw e (placed (closed-IsPlaced stop h k) r)
    | inr e ↦ rw e (InOrder-le seg.seg_start h r)
  ]

-- The variables of the loop at offset `i`.
record IsSegment (sql : Str) (i : ℕ) (seg : Segment) : Type 0 where
  before : seg.seg_start ≤ i
  inside : seg.seg_start ≤ length sql
  named : 0 < length seg.terminator

module _ (u : CharTable) (laws : IsPython u) (sql : Str) (seg : Segment) (i : ℕ)
    (inv : IsSegment sql i seg) where
  -- A round that closes no segment.
  Fits-quiet :
      (seg' : Segment) (next : ℕ)
      → i < next
      → seg'.seg_start ≡ seg.seg_start
      → seg'.terminator ≡ seg.terminator
      → Fits sql i seg (quiet seg' next)
  Fits-quiet seg' next h e t = record {
    grows = h;
    before = omega (arith, inv.before);
    inside = omega (arith, inv.inside);
    named = rw t inv.named;
    prepend = λ rest r. rw (← e) r;
  }

  Fits-terminator_step :
      starts_with seg.terminator (drop i sql) ≡ true → Fits sql i seg (terminator_step u sql seg i)
  unfolding terminator_step
  Fits-terminator_step h =
      let stop = i + length seg.terminator in
      let room = starts_with-room sql i seg.terminator h in
      elim (Bool-cases (seg.depth == 0)) [
        | inl e ↦ rw e (record {
          grows = omega (arith, inv.named);
          before = omega arith;
          inside = omega (arith, inv.named);
          named = inv.named;
          prepend = λ rest r.
              close_segment-InOrder u sql seg stop rest (omega (arith, inv.before))
                (omega (arith, inv.named)) r;
        })
        | inr e ↦ rw e (Fits-quiet seg stop (omega (arith, inv.named)) refl refl)
      ]

  module _ (here : i < length sql) where
    Fits-content : (next : ℕ) → i < next → Fits sql i seg (content seg next)
    Fits-content next h = Fits-quiet (record seg { has_content = true }) next h refl refl

    end_or-lt :
        (sub : Str) (from wide : ℕ)
        → i < from + wide
        → from ≤ length sql
        → i < end_or sql (find sql sub from) wide
    end_or-lt sub from wide h k = elim (Option-cases (find_here sub (drop from sql))) [
      | inl e ↦ rw e here
      | inr (n, e) ↦ rw e (omega arith)
    ]

    or_semicolon-named : (s : Str) → 0 < length (or_semicolon s)
    or_semicolon-named [] = omega arith
    or_semicolon-named (c ∷ s) = omega arith

    Fits-delimiter_step :
        (j : ℕ) → i < j → j ≤ length sql → Fits sql i seg (delimiter_step u sql seg j)
    unfolding delimiter_step
    Fits-delimiter_step j h k =
        let eol = end_or sql (find sql (codes "\n") j) 0 in
        let stop = if leb (eol + 1) (length sql) then eol + 1 else length sql in
        let ahead : i < stop = ground (arith, end_or-lt (codes "\n") j 0 (omega arith) k) in
        let inside : stop ≤ length sql = ground arith in
        record {
          grows = ahead;
          before = omega arith;
          inside = inside;
          named = or_semicolon-named (strip u (slice sql j eol));
          prepend = λ rest r. InOrder-le seg.seg_start (omega (arith, inv.before, ahead)) r;
        }

    -- A word behind `i`, in a segment that differs from `seg` in the keywords read only.
    module _ (j : ℕ) (ahead : i < j) (seg' : Segment) (same_start : seg'.seg_start ≡ seg.seg_start)
        (same_name : seg'.terminator ≡ seg.terminator) where
      Fits-end_step : Fits sql i seg (end_step u sql seg' j)
      unfolding end_step peek_word
      Fits-end_step =
          let (nxt, k) = peek_word u sql j in
          elim (Bool-cases (is_one_of nxt (words ("IF" ∷ "LOOP" ∷ "WHILE" ∷ "REPEAT" ∷ [])))) [
            | inl e ↦ rw e (Fits-quiet seg' k (omega arith) same_start same_name)
            | inr e ↦ rw e (
                Fits-quiet (record seg' { depth = seg'.depth - 1 })
                  (if str_eq nxt (codes "CASE") then k else j) (ground arith) same_start same_name)
          ]

      Fits-keyword_step : (word : Str) → Fits sql i seg (keyword_step u sql seg' word j)
      unfolding keyword_step
      Fits-keyword_step word =
          first_case_ind (Fits sql i seg) _ _
            (
              (λ _. Fits-quiet seg' j ahead same_start same_name),
              (
                (λ _. Fits-quiet (record seg' { routine = true }) j ahead same_start same_name),
                (
                  (λ _.
                      Fits-quiet (record seg' { depth = seg'.depth + 1 }) j ahead same_start
                        same_name),
                  ((λ _. Fits-end_step), tt),
                ),
              ),
            )
            (Fits-quiet seg' j ahead same_start same_name)

  module _ (ch : ℕ) (at : get_elem? sql i ≡ some ch) where
    here : i < length sql
    here = get_elem?-lt sql i at

    Fits-word_step : (u.is_alpha ch || ch == b'_') ≡ true → Fits sql i seg (word_step u sql seg i)
    unfolding word_step
    Fits-word_step h =
        let j = word_end u sql i in
        let word = to_upper u (slice sql i j) in
        let ahead = word_pos u laws sql i ch at h in
        elim (Bool-cases (str_eq word (codes "DELIMITER") && not seg.has_content)) [
          | inl e ↦
              rw e (Fits-delimiter_step here j ahead (word_end-le u sql i (omega (arith, here))))
          | inr e ↦ rw e (
              Fits-keyword_step here j ahead
                (record seg { has_content = true; first_word = first_or seg.first_word word }) refl
                refl word)
        ]

    Fits-plain_step : Fits sql i seg (plain_step u sql seg i ch)
    unfolding plain_step
    Fits-plain_step = elim (Bool-cases (u.is_alpha ch || ch == b'_')) [
      | inl e ↦ rw e (Fits-word_step e)
      | inr e ↦ rw e (
          Fits-quiet (record seg { has_content = not (u.is_space ch) || seg.has_content }) (suc i)
            (omega arith) refl refl)
    ]

    Fits-dollar_step :
        (o : Option Str)
        → ((d : Str) → o ≡ some d → dollar_delimiter u sql i ≡ some d)
        → Fits sql i seg (dollar_step u sql seg i ch o)
    Fits-dollar_step none f = Fits-plain_step
    Fits-dollar_step (some d) f =
        let (pos, room) = dollar_delimiter-le u sql i (f d refl) in
        Fits-content here _ (end_or-lt here d (i + length d) (length d) (omega arith) room)

    Fits-step : (dialect : Dialect) → Fits sql i seg (step u sql dialect seg i ch)
    unfolding step
    Fits-step dialect =
        first_case_ind (Fits sql i seg) _ _
          (
            (λ _.
                Fits-quiet seg (end_or sql (find sql (codes "\n") i) 1)
                  (end_or-lt here (codes "\n") i 1 (omega arith) (omega (arith, here))) refl refl),
            (
              (λ h.
                  Fits-quiet seg (end_or sql (find sql (codes "*/") (i + 2)) 2)
                    (end_or-lt here (codes "*/") (i + 2) 2 (omega arith)
                      (omega (arith, here, starts_with-room sql i (codes "/*") h)))
                    refl refl),
              (
                Fits-terminator_step,
                (
                  (λ _.
                      Fits-content here (quoted_end u ch sql i dialect + 1)
                        (omega (arith, quoted_end-le u ch sql i dialect here))),
                  tt,
                ),
              ),
            ),
          )
          (Fits-dollar_step (if ch == b'$' then dollar_delimiter u sql i else none)
            λ d h. ground (arith, h))

module _ (u : CharTable) (laws : IsPython u) (sql : Str) (dialect : Dialect) where
  split_from-InOrder :
      (fuel : ℕ) (seg : Segment) (i : ℕ)
      → IsSegment sql i seg
      → 0 < fuel
      → length sql < i + fuel
      → (xs : List Statement) × (split_from u sql fuel dialect seg i ≡ some xs)
        × InOrder sql seg.seg_start xs
  unfolding split_from
  split_from-InOrder zero seg i inv pos h = elim pos [ ]
  split_from-InOrder (suc fuel) seg i inv pos h = elim (Option-cases (get_elem? sql i)) [
    | inl e ↦ (
      close_segment u sql seg (length sql),
      rw (e, split_from),
      subst (InOrder sql seg.seg_start) (append-nil (close_segment u sql seg (length sql)))
          (close_segment-InOrder u sql seg (length sql) [] inv.inside (omega arith) done),
    )
    | inr (ch, e) ↦
        let s = step u sql dialect seg i ch in
        let f = Fits-step u laws sql seg i inv ch e dialect in
        let (xs, p, r) =
          split_from-InOrder fuel s.seg s.next
            (record { before = f.before; inside = f.inside; named = f.named })
            (omega (arith, get_elem?-lt sql i e)) (omega (arith, f.grows)) in
        (s.out ++ xs, rw (e, split_from, p), f.prepend xs r)
  ]

  -- The loop ends within its fuel, and the statements that it returns stand in the script in
  -- order, none overlapping another, each with its text verbatim at its start offset.
  pub split_statements-InOrder :
      (split_from u sql (suc (length sql)) dialect initial 0 ≢ none)
      × InOrder sql 0 (split_statements u sql dialect)
  unfolding split_statements
  split_statements-InOrder =
      let (xs, p, r) =
        split_from-InOrder (suc (length sql)) initial 0
          (record { before = omega arith; inside = omega arith; named = omega arith }) (omega arith)
          (omega arith) in
      rw p ((λ e. cc), r)
