-- ===== src/Sender/FastPath/Lines.antt =====
-- internal/sender/fastpath.go: the lines of a batch that are forwarded.
use influx_sync.Base.{
  ℕ, ◌^◌, ◌<◌, ◌≡◌, ◌≢◌, refl, sym, ap, ◌∙◌, false, Option, none, some, List, [], ◌∷◌, ◌++◌, ◌==◌,
  length, arith, All, ne→==, Bool-cases, Option-cases, inl, inr, if_both,
}
use mathlib.Core.Bool.{false≢true}
use mathlib.Core.Option.{none-ne-some}
use influx_sync.Model.Parsing.{
  Line, is_nil, parse_timestamp, some_tags, with_section, with_measurement, with_timestamp,
  at_last_space, parse_line, unescape, split_at, space,
}
use influx_sync.Model.Rendering.{Bytes}
use influx_sync.Sender.Dedup.Packing.{IsNs}
use influx_sync.Sender.FastPath.{
  FastPathConfig, key_of_line, accept_line, push_first, split_lines, Sorted, sort_line, sort_lines,
}

with_section-timestamp :
    (meas : Bytes) (ts : ℕ) (s : Bytes) (l : Line)
    → with_section meas ts s ≡ some l
    → l.timestamp ≡ ts
unfolding with_section some_tags
with_section-timestamp meas ts [] l e = ground arith
with_section-timestamp meas ts (c ∷ []) l e = ground arith
with_section-timestamp meas ts (c ∷ (d ∷ section)) l e = ground arith

with_measurement-timestamp :
    (ts : ℕ) (p : Bytes × Bytes) (l : Line) → with_measurement ts p ≡ some l → l.timestamp ≡ ts
unfolding with_measurement
with_measurement-timestamp ts (before, rest) l e = elim (Bool-cases (is_nil (unescape before))) [
  | inl nil ↦ absurd (ground (arith, e, nil))
  | inr named ↦
      with_section-timestamp (unescape before) ts (split_at (λ c. c == space) false rest).0 l
        (simp (named) at e)
]

parsed_timestamp : (tok : Bytes) (ts : ℕ) → parse_timestamp tok ≡ some ts → ts < 2 ^ 63
unfolding parse_timestamp
parsed_timestamp tok ts e = ground arith

with_timestamp-timestamp :
    (prefix tok : Bytes) (l : Line)
    → with_timestamp prefix (parse_timestamp tok) ≡ some l
    → l.timestamp < 2 ^ 63
unfolding with_timestamp
with_timestamp-timestamp prefix tok l e = elim (Option-cases (parse_timestamp tok)) [
  | inl nothing ↦ absurd (ground (arith, e, nothing))
  | inr (ts, parsed) ↦
      let same : l.timestamp ≡ ts = with_measurement-timestamp ts _ l (simp (parsed) at e) in
      omega (arith, same, parsed_timestamp tok ts parsed)
]

at_last_space-timestamp :
    (line : Bytes) (o : Option ℕ) (l : Line) → at_last_space line o ≡ some l → l.timestamp < 2 ^ 63
unfolding at_last_space
at_last_space-timestamp line none l e = ground arith
at_last_space-timestamp line (some i) l e = with_timestamp-timestamp _ _ l e

parse_line-timestamp : (line : Bytes) (l : Line) → parse_line line ≡ some l → l.timestamp < 2 ^ 63
unfolding parse_line
parse_line-timestamp line l e = at_last_space-timestamp _ _ l e

key_of_line-IsNs :
    (cfg : FastPathConfig) (l : Line) (key : Bytes) (ts : ℕ)
    → l.timestamp < 2 ^ 63
    → key_of_line cfg (some l) ≡ some (key, ts)
    → IsNs ts
unfolding key_of_line
key_of_line-IsNs cfg l key ts small e = ground arith

-- The time of a line that is forwarded.
pub accept_line-IsNs :
    (cfg : FastPathConfig) (line key : Bytes) (ts : ℕ)
    → accept_line cfg line ≡ some (key, ts)
    → IsNs ts
unfolding accept_line
accept_line-IsNs cfg line key ts e = elim (Option-cases (parse_line line)) [
  | inl nothing ↦ absurd (unfold key_of_line in none-ne-some _ (simp (nothing) at e))
  | inr (l, parsed) ↦
      key_of_line-IsNs cfg l key ts (parse_line-timestamp line l parsed) (simp (parsed) at e)
]

-- The keys have times from 1970 to 2262.
pub sort_lines-IsNs :
    (cfg : FastPathConfig) (lines : List Bytes) → All (λ k. IsNs k.1) (sort_lines cfg lines).keys
unfolding sort_lines sort_line
sort_lines-IsNs cfg [] = tt
sort_lines-IsNs cfg (line ∷ lines) =
    let rest = sort_lines-IsNs cfg lines in
    if_both (λ (s : Sorted). All (λ k. IsNs k.1) s.keys) (length line == 0) _ _ (λ e. rest)
      (λ e. elim (Option-cases (accept_line cfg line)) [
        | inl nothing ↦ rw (nothing) rest
        | inr ((key, ts), accepted) ↦
            rw (accepted) (accept_line-IsNs cfg line key ts accepted, rest)
      ])

abbrev NoFeed : Bytes → Type 0
NoFeed = All (λ b. b ≢ 10)

push_first-NoFeed :
    (b : ℕ) (lines : List Bytes) → b ≢ 10 → All NoFeed lines → All NoFeed (push_first b lines)
unfolding push_first
push_first-NoFeed b [] n h = ((n, tt), tt)
push_first-NoFeed b (line ∷ lines) n (h, hs) = ((n, h), hs)

split_lines-NoFeed : (body : Bytes) → All NoFeed (split_lines body)
unfolding split_lines
split_lines-NoFeed [] = (tt, tt)
split_lines-NoFeed (b ∷ rest) =
    let more = split_lines-NoFeed rest in
    if_both (All NoFeed) (b == 10) _ _ (λ feed. (tt, more))
      (λ other.
        push_first-NoFeed b (split_lines rest) (λ e. false≢true (sym other ∙ ap (λ t. t == 10) e))
          more)

-- A line and its feed are split off.
split_lines-append :
    (line rest : Bytes) → NoFeed line → split_lines (line ++ (10 ∷ rest)) ≡ line ∷ split_lines rest
unfolding split_lines push_first
split_lines-append [] rest h = refl
split_lines-append (b ∷ line) rest (n, h) = rw (ne→== b 10 n, split_lines-append line rest h) refl

sort_lines-accepted :
    (cfg : FastPathConfig) (line : Bytes) (lines : List Bytes) (key : Bytes × ℕ)
    → (length line == 0) ≡ false
    → accept_line cfg line ≡ some key
    → sort_lines cfg (line ∷ lines) ≡ sort_line line (sort_lines cfg lines) (some key)
unfolding sort_lines
sort_lines-accepted cfg line lines key filled accepted = rw (filled, accepted) refl

sort_lines-out :
    (cfg : FastPathConfig) (lines : List Bytes)
    → All NoFeed lines
    → (let s = sort_lines cfg lines in
        sort_lines cfg (split_lines s.out) ≡ record s { skipped = 0 })
unfolding sort_lines sort_line split_lines
sort_lines-out cfg [] h = refl
sort_lines-out cfg (line ∷ lines) (h, hs) =
    if_both (λ (s : Sorted). sort_lines cfg (split_lines s.out) ≡ record s { skipped = 0 })
      (length line == 0) _ _ (λ e. sort_lines-out cfg lines hs)
      (λ filled. elim (Option-cases (accept_line cfg line)) [
        | inl nothing ↦ rw (nothing) (sort_lines-out cfg lines hs)
        | inr (key, accepted) ↦ rw (accepted) (
            ap (sort_lines cfg) (split_lines-append line (sort_lines cfg lines).out h)
            ∙ sort_lines-accepted cfg line (split_lines (sort_lines cfg lines).out) key filled
                accepted
            ∙ ap (λ r. sort_line line r (some key)) (sort_lines-out cfg lines hs))
      ])

-- What is forwarded of a batch, split and sorted again, is forwarded whole with the same keys, and no
-- line is skipped.
pub sort_lines_again :
    (cfg : FastPathConfig) (body : Bytes)
    → (let s = sort_lines cfg (split_lines body) in
        sort_lines cfg (split_lines s.out) ≡ record s { skipped = 0 })
sort_lines_again cfg body = sort_lines-out cfg (split_lines body) (split_lines-NoFeed body)
