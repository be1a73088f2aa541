-- ===== src/Model/RoundTrip.antt =====
-- internal/model: ParseLine on the measurement and the tags that LineProtocol writes.
use influx_sync.Base.{
  ℕ, ◌≡◌, refl, ap, sym, ◌∙◌, Bool, false, ◌==◌, some, List, [], ◌∷◌, ◌++◌, map, append_assoc,
  append-nil, All, arith, Bool-cases, inl, inr,
}
use mathlib.Core.Bool.{false≢true}
use mathlib.Core.List.{tail-eq_of_cons-eq}
use influx_sync.Model.Parsing.{
  backslash, comma, space, equals, unescape, split_at, key_value, split_tag, push_segment, segments,
  is_nil, add_tag, tag_pairs, some_tags, with_section, ends_measurement, with_measurement,
  with_timestamp,
}
use influx_sync.Model.Rendering.{Bytes, escape, in_measurement, in_tag, render_tags}
use influx_sync.Model.Escapes.{IsPlain, unescape-escape_from, split-escape, glue, segments-escape}

-- A string with no backslash that is not empty.
abbrev pub IsName : Bytes → Type 0
IsName s = IsPlain s × (is_nil s ≡ false)

escape_nonempty :
    (special : ℕ → Bool) (s : Bytes)
    → is_nil s ≡ false
    → (c : ℕ) × (t : Bytes) × (escape special s ≡ c ∷ t)
unfolding escape is_nil
escape_nonempty special [] h = absurd (false≢true (sym h))
escape_nonempty special (c ∷ s) h = elim (Bool-cases (special c)) [
  | inl yes_ ↦ (backslash, c ∷ escape special s, simp yes_ refl)
  | inr none_ ↦ (c, escape special s, simp none_ refl)
]

pub unescape-escape : (special : ℕ → Bool) (s : Bytes) → IsPlain s → unescape (escape special s) ≡ s
unfolding unescape
unescape-escape special s h = unescape-escape_from special s h

split_tag-escape :
    (k v : Bytes)
    → IsName k
    → IsName v
    → split_tag (escape in_tag k ++ (equals ∷ escape in_tag v))
      ≡ some (escape in_tag k, escape in_tag v)
unfolding split_tag key_value split_at
split_tag-escape k v (hk, nk) (hv, nv) =
    let found =
      split-escape in_tag (λ c. c == equals) k (equals ∷ escape in_tag v) refl
        (λ d e. ground (arith, e)) hk in
    let (c, s, ek) = escape_nonempty in_tag k nk in
    let (d, t, ev) = escape_nonempty in_tag v nv in
    ap key_value found ∙ rw (append-nil, ek, ev) refl

module _ (val : Bytes → Bytes) where
  abbrev AreNames : List Bytes → Type 0
  AreNames ks = All (λ k. IsName k × IsName (val k)) ks

  abbrev pairs : List Bytes → List (Bytes × Bytes)
  pairs ks = map (λ k. (k, val k)) ks

  -- One tag as it is written.
  abbrev piece : Bytes → Bytes
  piece k = escape in_tag k ++ (equals ∷ escape in_tag (val k))

  piece_nonempty : (k : Bytes) → IsName k → is_nil (piece k) ≡ false
  unfolding is_nil
  piece_nonempty k (h, n) = let (c, s, e) = escape_nonempty in_tag k n in rw e refl

  tag_pairs-piece :
      (k : Bytes) (more : List Bytes) (tags : List (Bytes × Bytes))
      → IsName k
      → IsName (val k)
      → tag_pairs more ≡ some tags
      → tag_pairs (piece k ∷ more) ≡ some ((k, val k) ∷ tags)
  unfolding tag_pairs add_tag
  tag_pairs-piece k more tags nk nv e =
      rw
        (
          piece_nonempty k nk,
          split_tag-escape k (val k) nk nv,
          e,
          unescape-escape in_tag k nk.0,
          unescape-escape in_tag (val k) nv.0,
        )
        refl

  -- The written tags fall into an empty piece, in front of the first comma, and the tags.
  segments-render_tags :
      (ks : List Bytes)
      → AreNames ks
      → (more : List Bytes) × (segments false (render_tags val ks) ≡ [] ∷ more)
        × (tag_pairs more ≡ some (pairs ks))
  unfolding segments render_tags push_segment tag_pairs
  segments-render_tags [] h = ([], refl, refl)
  segments-render_tags (k ∷ ks) ((nk, nv), h) =
      let (more, es, et) = segments-render_tags ks h in
      let v = val k in
      let behind : segments false (escape in_tag v ++ render_tags val ks) ≡ escape in_tag v ∷ more =
        segments-escape in_tag v (render_tags val ks) (λ d e. ground (arith, e)) nv.0
        ∙ ap (glue (escape in_tag v)) es
        ∙ ap (λ t. t ∷ more) (append-nil (escape in_tag v)) in
      let whole : segments false
            (escape in_tag k ++ (equals ∷ (escape in_tag v ++ render_tags val ks)))
          ≡ piece k ∷ more =
        segments-escape in_tag k (equals ∷ (escape in_tag v ++ render_tags val ks))
          (λ d e. ground (arith, e)) nk.0
        ∙ ap (λ t. glue (escape in_tag k) (push_segment equals t)) behind in
      (piece k ∷ more, ap (λ t. [] ∷ t) whole, tag_pairs-piece k more (pairs ks) nk nv et)

  -- The first free space behind the tags is the one that LineProtocol writes there.
  split-render_tags :
      (ks : List Bytes) (fields : Bytes)
      → AreNames ks
      → split_at (λ c. c == space) false (render_tags val ks ++ (space ∷ fields))
        ≡ (render_tags val ks, space ∷ fields)
  unfolding split_at render_tags
  split-render_tags [] fields h = refl
  split-render_tags (k ∷ ks) fields ((nk, nv), h) =
      let v = val k in
      let stop : ℕ → Bool = λ c. c == space in
      let r = render_tags val ks in
      let regroup : (escape in_tag k ++ (equals ∷ (escape in_tag v ++ r))) ++ (space ∷ fields)
          ≡ escape in_tag k ++ (equals ∷ (escape in_tag v ++ (r ++ (space ∷ fields)))) =
        append_assoc (escape in_tag k) (equals ∷ (escape in_tag v ++ r)) (space ∷ fields)
        ∙ ap (λ t. escape in_tag k ++ (equals ∷ t))
            (append_assoc (escape in_tag v) r (space ∷ fields)) in
      let behind_value : split_at stop false (escape in_tag v ++ (r ++ (space ∷ fields)))
          ≡ (escape in_tag v ++ r, space ∷ fields) =
        split-escape in_tag stop v (r ++ (space ∷ fields)) refl (λ d e. ground (arith, e)) nv.0
        ∙ ap (λ p. (escape in_tag v ++ p.0, p.1)) (split-render_tags ks fields h) in
      let whole : split_at stop false
            ((escape in_tag k ++ (equals ∷ (escape in_tag v ++ r))) ++ (space ∷ fields))
          ≡ (escape in_tag k ++ (equals ∷ (escape in_tag v ++ r)), space ∷ fields) =
        ap (split_at stop false) regroup
        ∙ split-escape in_tag stop k (equals ∷ (escape in_tag v ++ (r ++ (space ∷ fields)))) refl
            (λ d e. ground (arith, e)) nk.0
        ∙ ap (λ p. (escape in_tag k ++ (equals ∷ p.0), p.1)) behind_value in
      ap (λ p. (comma ∷ p.0, p.1)) whole

  -- Neither a comma nor a space of the measurement ends it, and what is behind it does.
  split-measurement :
      (m : Bytes) (ks : List Bytes) (fields : Bytes)
      → IsPlain m
      → split_at ends_measurement false
          (escape in_measurement m ++ (render_tags val ks ++ (space ∷ fields)))
        ≡ (escape in_measurement m, render_tags val ks ++ (space ∷ fields))
  unfolding split_at render_tags
  split-measurement m [] fields h =
      split-escape in_measurement ends_measurement m (space ∷ fields) refl (λ d e. e) h
      ∙ ap (λ t. (t, space ∷ fields)) (append-nil (escape in_measurement m))
  split-measurement m (k ∷ ks) fields h =
      let rest = render_tags val (k ∷ ks) ++ (space ∷ fields) in
      split-escape in_measurement ends_measurement m rest refl (λ d e. e) h
      ∙ ap (λ t. (t, rest)) (append-nil (escape in_measurement m))

  with_section-tags :
      (m : Bytes) (ts : ℕ) (section : Bytes)
      → is_nil section ≡ false
      → with_section m ts (comma ∷ section) ≡ some_tags m ts (tag_pairs (segments false section))
  unfolding with_section is_nil
  with_section-tags m ts [] h = absurd (false≢true (sym h))
  with_section-tags m ts (c ∷ section) h = refl

  section-render_tags :
      (m : Bytes) (ts : ℕ) (ks : List Bytes)
      → AreNames ks
      → with_section m ts (render_tags val ks)
        ≡ some (record { measurement = m; tags = pairs ks; timestamp = ts })
  unfolding with_section some_tags render_tags
  section-render_tags m ts [] h = refl
  section-render_tags m ts (k ∷ ks) ((nk, nv), h) =
      let behind = escape in_tag k ++ (equals ∷ (escape in_tag (val k) ++ render_tags val ks)) in
      let (c, t, e) = escape_nonempty in_tag k nk.1 in
      let some_bytes : is_nil behind ≡ false = unfold is_nil in rw e refl in
      let (more, es, et) = segments-render_tags (k ∷ ks) ((nk, nv), h) in
      let first : ◌≡◌ {A = List Bytes} ([] ∷ segments false behind) ([] ∷ more) =
        unfold segments render_tags in es in
      let pieces : segments false behind ≡ more = tail-eq_of_cons-eq first in
      with_section-tags m ts behind some_bytes ∙ ap (some_tags m ts) (ap tag_pairs pieces ∙ et)

  -- ParseLine, behind the search for the timestamp, gets the measurement and the tags back from what
  -- LineProtocol writes for them, whatever the fields are: for a measurement, tag keys and tag values
  -- that are not empty and have no backslash.
  pub parse-render :
      (m : Bytes) (ts : ℕ) (ks : List Bytes) (fields : Bytes)
      → IsName m
      → AreNames ks
      → with_timestamp
          (escape in_measurement m ++ (render_tags val ks ++ (space ∷ fields)))
          (some ts)
        ≡ some (record { measurement = m; tags = pairs ks; timestamp = ts })
  unfolding with_timestamp with_measurement
  parse-render m ts ks fields (hm, nm) h =
      let plain = unescape-escape in_measurement m hm in
      ap (with_measurement ts) (split-measurement m ks fields hm)
      ∙ rw (plain, nm, ap (λ p. p.0) (split-render_tags ks fields h))
          (section-render_tags m ts ks h)
