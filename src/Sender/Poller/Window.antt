-- ===== src/Sender/Poller/Window.antt =====
-- internal/sender/poller.go: one window of a poll. Its points are filtered, put into the log as
-- frames, and then the cursor moves.
use influx_sync.Base.{
  ℕ, ◌+◌, ◌^◌, ◌≤◌, ◌<◌, ◌≡◌, refl, sym, ap, ◌∙◌, Bool, true, false, Option, none, some, List, [],
  ◌∷◌, ◌++◌, ◌==◌, if◌then◌else◌, length, Result, ok, err, arith, All, All-map, Result-cases, inl,
  inr, ◌⊎◌,
}
use mathlib.Core.List.{Memᴰ}
use mathlib.Core.Path.{subst}
use influx_sync.Protocol.{Compression}
use influx_sync.Wal
use influx_sync.Wal.{Wal, WalError}
use influx_sync.Wal.Queue.{Queue, Represents}
use influx_sync.Wal.Appending.{stamped}
use influx_sync.Wal.Cursor.{set_cursor-Represents}
use influx_sync.Model.Rendering.{Point}
use influx_sync.Sender.Dedup.{Dedup}
use influx_sync.Sender.Dedup.Evicting.{Added, IsSound, set_cursor-IsSound}
use influx_sync.Sender.FastPath
use influx_sync.Sender.FastPath.{FastPath, filter, filter_points}
use influx_sync.Sender.FastPath.Skipping.{IsCovered, filter_points-IsCovered}
use influx_sync.Sender.Framing.{FrameError, append_frames, append_points, effective_batch_points}
use influx_sync.Sender.Framing.Holding.{Framed}
use influx_sync.Sender.Framing.Complete.{append_points-Appends}
use influx_sync.Sender.Framing.Growing.{append_points-Grown}
use influx_sync.Sender.Poller.{Poller, Env, filter_window, told, saved, cursor_saved, save_points}

-- What the fast path, where there is one, has forwarded.
abbrev pub Fast : Added → Option FastPath → Type 0
Fast added none = Unit {0}
Fast added (some f) = IsSound f.dedup added

abbrev pub AreTimed : List Point → Type 0
AreTimed = All (λ p. p.timestamp < 2 ^ 64)

All_listed : (ps : List Point) → All (λ p. Memᴰ p ps) ps
All_listed [] = tt
All_listed (p ∷ ps) = (Memᴰ.head refl, All-map _ _ ps (λ x m. Memᴰ.tail m) (All_listed ps))

filter_points_few : (d : Dedup) (ps : List Point) → length (filter_points d ps).0 ≤ length ps
unfolding filter_points
filter_points_few d [] = omega arith
filter_points_few d (p ∷ ps) = ground (arith, filter_points_few d ps)

-- What is left of a window covers it, with what was forwarded.
pub filter_window-IsCovered :
    (added : Added) (fp : Option FastPath) (cursor : ℕ) (ps : List Point)
    → Fast added fp
    → AreTimed ps
    → (let r = filter_window fp cursor ps in
        Fast added r.0 × All (IsCovered added r.1) ps × (length r.1 ≤ length ps))
unfolding filter_window filter FastPath.set_cursor
filter_window-IsCovered added none cursor ps v h =
    (tt, All-map _ (IsCovered added ps) ps (λ x m. inl m) (All_listed ps), omega arith)
filter_window-IsCovered added (some f) cursor ps v h =
    let kept = set_cursor-IsSound f.dedup cursor added v in
    (kept, filter_points-IsCovered _ added ps kept h, filter_points_few _ ps)

pub told-Fast :
    (c : Compression) (env : Env) (added : Added) (fp : Option FastPath) (cursor : ℕ)
    → Fast added fp
    → Fast added (told c env fp cursor)
unfolding told FastPath.set_cursor
told-Fast c env added none cursor v = tt
told-Fast c env added (some f) cursor v = set_cursor-IsSound f.dedup cursor added v

-- The log has frames of the points at its end, and the cursor is at `end`.
pub record Moved (c : Compression) (typ : ℕ) (w w' : Wal) (q : Queue) (end : ℕ) (ps : List Point)
    : Type 0 where
  pub frames : List (List ℕ)
  pub of_points : Framed c typ ps frames
  pub queue : Represents w' (q ++ stamped w.cp.next_seq frames)
  pub next : w'.cp.next_seq ≡ w.cp.next_seq + length frames
  pub few : length frames ≤ length ps
  pub at_end : w'.cp.cursor_ns ≡ end

-- The log may have frames at its end, and the cursor is where it was.
pub record Stuck (w w' : Wal) (q : Queue) : Type 0 where
  pub extra : List (List ℕ)
  pub queue : Represents w' (q ++ stamped w.cp.next_seq extra)
  pub stays : w'.cp.cursor_ns ≡ w.cp.cursor_ns

module _ (p : Wal × Result WalError (Unit {0})) where
  cursor_saved_log : (cursor_saved p).0 ≡ p.0
  unfolding cursor_saved
  cursor_saved_log = elim (Result-cases p.1) [ inl (u, e) ↦ rw (e) refl | inr (x, e) ↦ rw (e) refl ]

  cursor_saved_ok : p.1 ≡ ok tt → (cursor_saved p).1 ≡ true
  unfolding cursor_saved
  cursor_saved_ok e = rw (e) refl

  cursor_saved_err : (x : WalError) → p.1 ≡ err x → (cursor_saved p).1 ≡ false
  unfolding cursor_saved
  cursor_saved_err x e = rw (e) refl

-- SetCursor alone.
pub cursor_saved-cases :
    (w : Wal) (now end : ℕ) (q : Queue)
    → Represents w q
    → (let r = cursor_saved (Wal.set_cursor w now end) in
        Represents r.0 q
        × (r.0.cp.next_seq ≡ w.cp.next_seq)
        × (((r.1 ≡ true) × (r.0.cp.cursor_ns ≡ end))
            ⊎ ((r.1 ≡ false) × (r.0.cp.cursor_ns ≡ w.cp.cursor_ns))))
cursor_saved-cases w now end q r =
    let (kept, next, moved) = set_cursor-Represents w now end q r in
    let p : Wal × Result WalError (Unit {0}) = Wal.set_cursor w now end in
    let log : (cursor_saved p).0 ≡ p.0 = cursor_saved_log p in
    (
      subst (λ v. Represents v q) (sym log) kept,
      ap (λ (v : Wal). v.cp.next_seq) log ∙ next,
      elim moved [
        | inl (e, at_end) ↦ inl (cursor_saved_ok p e, ap (λ (v : Wal). v.cp.cursor_ns) log ∙ at_end)
        | inr (e, stays) ↦
            inr (cursor_saved_err p _ e, ap (λ (v : Wal). v.cp.cursor_ns) log ∙ stays)
      ],
    )

-- The frames of the points and then the cursor: both, or the cursor stays.
pub save_points-cases :
    (c : Compression) (env : Env) (p : Poller) (end : ℕ) (ps : List Point) (q : Queue)
    → Represents p.wal q
    → p.wal.cp.next_seq + length ps < 2 ^ 64
    → (let r = save_points c env p end ps in
        ((r.1 ≡ true) × Moved c p.cfg.compression p.wal r.0 q end ps)
        ⊎ ((r.1 ≡ false) × Stuck p.wal r.0 q))
unfolding save_points append_frames saved
save_points-cases c env p end ps q r room =
    let halved : ℕ = effective_batch_points env.degraded p.cfg.batch_points in
    let batch : ℕ = if halved == 0 then p.cfg.batch_points else halved in
    let a : Wal × Result FrameError (Unit {0}) =
      append_points (batch + 1) c p.cfg.compression batch p.wal ps in
    let P : Wal × Bool → Type 0 = λ v.
      ((v.1 ≡ true) × Moved c p.cfg.compression p.wal v.0 q end ps)
      ⊎ ((v.1 ≡ false) × Stuck p.wal v.0 q) in
    elim (Result-cases a.1) [
      | inl (u, done) ↦
          let whole : a ≡ (a.0, ok tt) = ap (λ t. (a.0, t)) done in
          let appends =
            append_points-Appends (batch + 1) c p.cfg.compression batch (omega arith) p.wal a.0 q ps
              r room whole in
          let (kept, next, moved) = cursor_saved-cases a.0 env.saved_at end _ appends.held.queue in
          let after : saved env.saved_at end a
              ≡ cursor_saved (Wal.set_cursor a.0 env.saved_at end) =
            ap (saved env.saved_at end) whole in
          subst P (sym after) (elim moved [
            | inl (good, at_end) ↦ inl (
              good,
              record {
                frames = appends.more;
                of_points = appends.of_points;
                queue = kept;
                next = next ∙ appends.held.next;
                few = appends.few;
                at_end = at_end;
              },
            )
            | inr (bad, stays) ↦ inr (
              bad,
              record { extra = appends.more; queue = kept; stays = stays ∙ appends.held.cursor },
            )
          ])
      | inr (x, failed) ↦
          let whole : a ≡ (a.0, err x) = ap (λ t. (a.0, t)) failed in
          let after : saved env.saved_at end a ≡ (a.0, false) = ap (saved env.saved_at end) whole in
          let grown = append_points-Grown (batch + 1) c p.cfg.compression batch p.wal q ps r room in
          subst P (sym after) (
            inr (
              refl,
              record { extra = grown.frames; queue = grown.held.queue; stays = grown.held.cursor },
            ))
    ]
