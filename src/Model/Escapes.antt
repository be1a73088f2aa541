-- ===== src/Model/Escapes.antt =====
-- internal/model: what the renderer escapes, the parser of a line reads back.
use influx_sync.Base.{
  ℕ, ◌≡◌, ◌≢◌, refl, ap, sym, ◌∙◌, Bool, true, false, ◌==◌, List, [], ◌∷◌, ◌++◌, All, Bool-cases,
  inl, inr, ne→==,
}
use mathlib.Core.Bool.{false≢true}
use influx_sync.Model.Parsing.{
  backslash, comma, push_unless, unescape_from, split_at, push_segment, segments,
}
use influx_sync.Model.Rendering.{Bytes, escape}

-- No byte is a backslash.
abbrev pub IsPlain : Bytes → Type 0
IsPlain s = All (λ c. c ≢ backslash) s

module _ (special : ℕ → Bool) where
  pub unescape-escape_from : (s : Bytes) → IsPlain s → unescape_from false (escape special s) ≡ s
  unfolding unescape_from escape push_unless
  unescape-escape_from [] h = refl
  unescape-escape_from (c ∷ s) (n, h) =
      let no : c == backslash ≡ false = ne→== c backslash n in
      elim (Bool-cases (special c)) [
        | inl yes_ ↦ simp yes_ (ap (λ t. c ∷ t) (unescape-escape_from s h))
        | inr none_ ↦ simp (none_, no) (ap (λ t. c ∷ t) (unescape-escape_from s h))
      ]

  -- No byte of an escaped string is a free stop byte: the search goes on behind it.
  pub split-escape :
      (stop : ℕ → Bool) (s t : Bytes)
      → stop backslash ≡ false
      → ((d : ℕ) → stop d ≡ true → special d ≡ true)
      → IsPlain s
      → split_at stop false (escape special s ++ t)
        ≡ (escape special s ++ (split_at stop false t).0, (split_at stop false t).1)
  unfolding split_at escape
  split-escape stop [] t free all h = refl
  split-escape stop (d ∷ s) t free all (n, h) =
      let no : d == backslash ≡ false = ne→== d backslash n in
      let more = split-escape stop s t free all h in
      elim (Bool-cases (special d)) [
        | inl yes_ ↦ simp (yes_, free, more)
        | inr none_ ↦ elim (Bool-cases (stop d)) [
          | inl stops ↦ absurd (false≢true (sym none_ ∙ all d stops))
          | inr goes ↦ simp (none_, goes, no, more)
        ]
      ]

-- A string in front of the first piece.
abbrev pub glue : Bytes → List Bytes → List Bytes
glue s [] = s ∷ []
glue s (x ∷ xs) = (s ++ x) ∷ xs

push_segment-glue :
    (c : ℕ) (s : Bytes) (xs : List Bytes) → push_segment c (glue s xs) ≡ glue (c ∷ s) xs
unfolding push_segment
push_segment-glue c s [] = refl
push_segment-glue c s (x ∷ xs) = refl

glue-push_segment : (c : ℕ) (xs : List Bytes) → glue [] (push_segment c xs) ≡ push_segment c xs
unfolding push_segment
glue-push_segment c [] = refl
glue-push_segment c (x ∷ xs) = refl

glue_nil : (t : Bytes) → glue [] (segments false t) ≡ segments false t
unfolding segments
glue_nil [] = refl
glue_nil (c ∷ t) = elim (Bool-cases (c == comma)) [
  | inl ends ↦ simp ends refl
  | inr goes ↦ simp goes (glue-push_segment c (segments (c == backslash) t))
]

-- No byte of an escaped string ends a piece.
pub segments-escape :
    (special : ℕ → Bool) (s t : Bytes)
    → ((d : ℕ) → d == comma ≡ true → special d ≡ true)
    → IsPlain s
    → segments false (escape special s ++ t) ≡ glue (escape special s) (segments false t)
unfolding segments escape
segments-escape special [] t all h = sym (glue_nil t)
segments-escape special (d ∷ s) t all (n, h) =
    let no : d == backslash ≡ false = ne→== d backslash n in
    let more = segments-escape special s t all h in
    elim (Bool-cases (special d)) [
      | inl yes_ ↦
          simp (yes_, more)
            (ap (push_segment backslash) (push_segment-glue d (escape special s) (segments false t))
              ∙ push_segment-glue backslash (d ∷ escape special s) (segments false t))
      | inr none_ ↦ elim (Bool-cases (d == comma)) [
        | inl ends ↦ absurd (false≢true (sym none_ ∙ all d ends))
        | inr goes ↦
            simp (none_, no, goes, more) (push_segment-glue d (escape special s) (segments false t))
      ]
    ]
