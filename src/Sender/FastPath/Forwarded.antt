-- ===== src/Sender/FastPath/Forwarded.antt =====
-- internal/sender/fastpath.go: what ServeHTTP does to the log and to the set, and what Filter drops.
use influx_sync.Base.{
  ℕ, ◌+◌, ◌≡◌, refl, not, ◌||◌, Option, none, some, List, [], ◌∷◌, ltb, ◌==◌, length, Result, ok,
  err, inl, inr, ◌⊎◌, if_both,
}
use influx_sync.Protocol
use influx_sync.Protocol.{Compression, encode}
use influx_sync.Wal.{Wal, WalError, append_batch}
use influx_sync.Wal.Batches.{append_batch_refused}
use influx_sync.Model.Rendering.{Bytes}
use influx_sync.Sender.Dedup.{add_keys}
use influx_sync.Sender.Dedup.Evicting.{Added}
use influx_sync.Sender.FastPath.{
  FastPath, Push, Sorted, split_lines, sort_lines, read_limited, appended, framed, forward,
  with_body, signalled, oversize, backpressure, gate_shut, is_off, serve,
}

-- The log and the set are as before.
abbrev pub Kept : FastPath → FastPath → Type 0
Kept f f' = (f'.wal ≡ f.wal) × (f'.dedup ≡ f.dedup)

-- The log took one frame of the lines of `body`, and then the set took their points.
abbrev pub Took : Compression → FastPath → Push → Bytes → FastPath → Type 0
Took c f push body f' =
    (fb : List ℕ) × (seqs : List ℕ) × (encode c f.cfg.compression 0
        (sort_lines f.cfg (split_lines body)).out
      ≡ ok fb)
    × (append_batch f.wal (fb ∷ []) ≡ (f'.wal, ok seqs))
    × (f'.dedup ≡ add_keys push.clock 0 (sort_lines f.cfg (split_lines body)).keys f.dedup)

appended-Outcome :
    (f : FastPath) (clock : ℕ → ℕ) (keys : Added) (fb : List ℕ) (p : Wal × Result WalError (List ℕ))
    → append_batch f.wal (fb ∷ []) ≡ p
    → Kept f (appended f clock keys p)
      ⊎ ((seqs : List ℕ) × (append_batch f.wal (fb ∷ []) ≡ ((appended f clock keys p).wal, ok seqs))
          × ((appended f clock keys p).dedup ≡ add_keys clock 0 keys f.dedup))
unfolding appended backpressure
appended-Outcome f clock keys fb (w, err e) h = inl (append_batch_refused f.wal w fb e h, refl)
appended-Outcome f clock keys fb (w, ok seqs) h = inr (seqs, h, refl)

-- What ServeHTTP takes of the body of a request.
abbrev pub body_of : FastPath → Push → Bytes
body_of f push = elim (read_limited (f.cfg.max_batch_bytes + 1) push.body) [
  | none ↦ []
  | some b ↦ b
]

framed-Outcome :
    (c : Compression) (f : FastPath) (push : Push) (body : Bytes)
    (r : Result Protocol.Error (List ℕ))
    → (let s = sort_lines f.cfg (split_lines body) in
        encode c f.cfg.compression 0 s.out ≡ r
        → (let f' = framed f push.clock s.keys r in Kept f f' ⊎ Took c f push body f'))
unfolding framed oversize
framed-Outcome c f push body (err e) h = inl (refl, refl)
framed-Outcome c f push body (ok fb) h =
    elim (appended-Outcome f push.clock (sort_lines f.cfg (split_lines body)).keys fb
      (append_batch f.wal (fb ∷ [])) refl) [
        | inl kept ↦ inl kept
        | inr (seqs, log, set) ↦ inr (fb, seqs, h, log, set)
      ]

abbrev pub Outcome : Compression → FastPath → Push → FastPath → Type 0
Outcome c f push f' = Kept f f' ⊎ Took c f push (body_of f push) f'

forward-Outcome :
    (c : Compression) (f : FastPath) (push : Push) (body : Bytes)
    → (let f' = forward c f push.clock (sort_lines f.cfg (split_lines body)) in
        Kept f f' ⊎ Took c f push body f')
unfolding forward
forward-Outcome c f push body =
    let s : Sorted = sort_lines f.cfg (split_lines body) in
    if_both (λ f'. Kept f f' ⊎ Took c f push body f') (length s.out == 0) _ _
      (λ nothing. inl (refl, refl))
      (λ some_lines.
        framed-Outcome c
          (record f {
            metrics = record f.metrics { line_skipped = f.metrics.line_skipped + s.skipped };
          })
          push body _ refl)

with_body-Outcome :
    (c : Compression) (f : FastPath) (push : Push) (o : Option Bytes)
    → (let f' = with_body c f push o in
        Kept f f' ⊎ Took c f push (elim o [ none ↦ [] | some b ↦ b ]) f')
unfolding with_body oversize backpressure
with_body-Outcome c f push none = inl (refl, refl)
with_body-Outcome c f push (some body) =
    let P : FastPath → Type 0 = λ f'. Kept f f' ⊎ Took c f push body f' in
    let over : P (oversize f) = inl (refl, refl) in
    let back : P (backpressure f) = inl (refl, refl) in
    if_both P (length body == 0) _ _ (λ e. over)
      (λ filled.
        if_both P (ltb f.cfg.max_batch_bytes (length body)) _ _ (λ e. over)
          (λ fits.
            if_both P (gate_shut push.at_yellow) _ _ (λ e. back)
              (λ open_gate. forward-Outcome c f push body)))

pub serve-Outcome :
    (c : Compression) (f : FastPath) (push : Push) → Outcome c f push (serve c f push)
unfolding serve signalled
serve-Outcome c f push =
    if_both (Outcome c f push) (is_off f.cfg.mode || not f.active) _ _ (λ idle. inl (refl, refl))
      (λ run.
        with_body-Outcome c (signalled f) push (read_limited (f.cfg.max_batch_bytes + 1) push.body))
