-- ===== src/Sender/Exchange.antt =====
-- internal/sender/sender.go, Run: one exchange with the receiver for the head of the log.
use influx_sync.Base.{
  ℕ, suc, ◌+◌, ◌≤◌, ◌<◌, ◌≡◌, ◌≢◌, ◌⊎◌, inl, inr, refl, ap, sym, ◌∙◌, Bool, true, false, ◌||◌, ◌&&◌,
  Option, none, some, List, [], ◌∷◌, ◌==◌, ==_iff, if◌then◌else◌, length, arith, Bool-cases,
  Option-cases, Result, ok, err, ge→ltb,
}
use mathlib.Core.Path.{subst}
use mathlib.Core.Option.{some-injective, none-ne-some}
use influx_sync.Protocol.{Compression, ack_success, ack_fail}
use influx_sync.Wal.{Wal, WalError}
use influx_sync.Wal.Commit.{commit}
use influx_sync.Wal.Queue.{Queue, Represents}
use influx_sync.Wal.Appending.{peek-head}
use influx_sync.Transport.Client.{
  Client, Link, ensure_connected, close, send_frame, wait_ack, take_answer,
}
use influx_sync.Sender.{
  SenderConfig, Sender, with_client, retry, retry_capped, connect, send_one, with_answer, read_ack,
  committed, commit_head, on_ack, await_ack, send_and_wait, use_cache, with_cache, with_connection,
  cached_send, on_peek, run_step,
}

abbrev pub CacheFits : Option (ℕ × List ℕ) → ℕ → Queue → Type 0
CacheFits none next q = Unit {0}
CacheFits (some (k, frame)) next q =
    (k + length q < next) ⊎ ((rest : Queue) × (q ≡ (k, frame) ∷ rest))

-- The log of the sender stands for `q`, and its cache holds no other frame for the head's number.
pub record IsSending (s : Sender) (q : Queue) : Type 0 where
  pub log : Represents s.wal q
  pub cache_fits : CacheFits s.cache s.wal.cp.next_seq q

-- The answer that comes to one frame on the present connection, or on a new one where there is none.
abbrev pub answer : Link → Client → Option ℕ
answer link c =
    if (c.connected || link.dial_ok) && link.send_ok 0
    then link.answers (if c.connected then c.reads else 0)
    else none

not_success : (ack : ℕ) → ack == ack_success ≡ false → some ack ≢ some ack_success
not_success ack other e =
    let is : ack ≡ ack_success = some-injective ack ack_success e in ground arith

pub success_cases : (a : Option ℕ) → (a ≡ some ack_success) ⊎ (a ≢ some ack_success)
success_cases none = inr (λ e. none-ne-some _ e)
success_cases (some ack) = elim (Bool-cases (ack == ack_success)) [
  | inl success ↦ inl (ap some ((==_iff ack ack_success).0 success))
  | inr other ↦ inr (not_success ack other)
]

committed-same :
    (s : Sender) (p : Wal × Result WalError (Unit {0}))
    → ((committed s p).0.wal ≡ p.0) × ((committed s p).0.cache ≡ s.cache)
unfolding committed
committed-same s (w, ok u) = (refl, refl)
committed-same s (w, err e) = (refl, refl)

-- Where the connection stands, one exchange.
pub exchange :
    (cfg : SenderConfig) (link : Link) (seq : ℕ) (frame : List ℕ) (s : Sender)
    → s.client.connected ≡ true
    → let a = (if link.send_ok 0 then link.answers s.client.reads else none) in
      let s' = send_and_wait cfg link seq frame s in
      (s'.cache ≡ s.cache)
      × (a ≡ some ack_success → s'.wal ≡ (commit s.wal link.now seq).0)
      × (a ≢ some ack_success → s'.wal ≡ s.wal)
unfolding send_and_wait await_ack on_ack send_one with_client read_ack with_answer send_frame
    wait_ack take_answer close retry retry_capped commit_head committed
exchange cfg link seq frame s on = elim (Bool-cases (link.send_ok 0)) [
  | inr fails ↦ simp (on, fails) (refl, (λ e. absurd (none-ne-some _ e)), λ _. refl)
  | inl sent ↦ elim (Option-cases (link.answers s.client.reads)) [
    | inl late ↦ simp (on, sent, late) (refl, (λ e. absurd (none-ne-some _ e)), λ _. refl)
    | inr (ack, came) ↦ elim (Bool-cases (ack == ack_success)) [
      | inl success ↦
          let is : ack ≡ ack_success = (==_iff ack ack_success).0 success in
          let (ew, ec) =
            committed-same
              (record s {
                client = record s.client {
                  connected = true;
                  sent = frame ∷ s.client.sent;
                  reads = s.client.reads + 1;
                };
              })
              (commit s.wal link.now seq) in
          simp (on, sent, came, success) (ec, (λ _. ew), λ ne. absurd (ne (ap some is)))
      | inr other ↦ elim (Bool-cases (ack == ack_fail)) [
        | inl fail ↦
            simp (on, sent, came, other, fail)
              (refl, (λ e. absurd (not_success ack other e)), λ _. refl)
        | inr odd ↦
            simp (on, sent, came, other, odd)
              (refl, (λ e. absurd (not_success ack other e)), λ _. refl)
      ]
    ]
  ]
]

pair_eq : {k n : ℕ} {a b : List ℕ} → k ≡ n → a ≡ b → ◌≡◌ {A = ℕ × List ℕ} (k, a) (n, b)
pair_eq {k} {n} {a} {b} e e' = rw (e, e') refl

head_bytes : List ℕ → Queue → List ℕ
head_bytes other [] = other
head_bytes other ((s, b) ∷ q) = b

use_cache-head :
    (s : Sender) (n next : ℕ) (b : List ℕ) (q : Queue) (cache : Option (ℕ × List ℕ))
    → n + suc (length q) ≡ next
    → CacheFits cache next ((n, b) ∷ q)
    → s.cache ≡ cache
    → let p = use_cache s n b cache in
      (p.1 ≡ b) × (p.0.wal ≡ s.wal) × (p.0.client ≡ s.client) × (p.0.cache ≡ some (n, b))
unfolding use_cache
use_cache-head s n next b q none e fits is = (refl, refl, refl, refl)
use_cache-head s n next b q (some (k, frame)) e fits is = elim (Bool-cases (k == n)) [
  | inr other ↦ simp other (refl, refl, refl, refl)
  | inl same ↦
      let number : k ≡ n = (==_iff k n).0 same in
      let held : frame ≡ b = elim fits [
        | inl before ↦ absurd (omega (arith, before, number, e))
        | inr (rest, whole) ↦ unfold head_bytes in ap (head_bytes b) (sym whole)
      ] in
      simp same (held, refl, refl, is ∙ ap some (pair_eq number held))
]

-- The cache is either the head of the queue or out of date, so the head is what is sent.
pub with_cache-head :
    (s : Sender) (n : ℕ) (b : List ℕ) (q : Queue)
    → IsSending s ((n, b) ∷ q)
    → let p = with_cache s n b in
      (p.1 ≡ b) × (p.0.wal ≡ s.wal) × (p.0.client ≡ s.client) × (p.0.cache ≡ some (n, b))
unfolding with_cache
with_cache-head s n b q h =
    use_cache-head s n s.wal.cp.next_seq b q s.cache h.log.numbered.0 h.cache_fits refl

pub connect-same :
    (link : Link) (s : Sender)
    → let p = connect link s in
      (p.0.wal ≡ s.wal)
      × (p.0.cache ≡ s.cache)
      × (p.1 ≡ (s.client.connected || link.dial_ok))
      × (p.1 ≡ true
          → (p.0.client.connected ≡ true)
            × (p.0.client.reads ≡ (if s.client.connected then s.client.reads else 0)))
unfolding connect ensure_connected with_client
connect-same link s = ground arith

-- After a commit of the head the cached frame is out of date.
pub cache_behind :
    (cache : Option (ℕ × List ℕ)) (n next : ℕ) (b : List ℕ) (q : Queue)
    → cache ≡ some (n, b)
    → n + suc (length q) ≡ next
    → CacheFits cache next q
cache_behind cache n next b q e fits =
    subst (λ t. CacheFits t next q) (sym e) (inl (omega (arith, fits)))

with_connection-if :
    (cfg : SenderConfig) (link : Link) (links : List Link) (n : ℕ) (b : List ℕ) (p : Sender × Bool)
    → cfg.pipeline ≤ 1
    → with_connection cfg link links n b p
      ≡ (if p.1 then send_and_wait cfg link n b p.0 else retry p.0)
unfolding with_connection
with_connection-if cfg link links n b (s, false) single = refl
with_connection-if cfg link links n b (s, true) single = simp (ge→ltb 1 cfg.pipeline single)

-- A pass with a frame at the head of the log: the frame is sent on the connection, or there is none.
pub run_step-head :
    (c : Compression) (cfg : SenderConfig) (link : Link) (links : List Link) (s : Sender) (n : ℕ)
    (b : List ℕ) (q : Queue)
    → cfg.pipeline ≤ 1
    → IsSending s ((n, b) ∷ q)
    → let p = connect link (with_cache s n b).0 in
      run_step c cfg link links s
      ≡ (if s.client.connected || link.dial_ok then send_and_wait cfg link n b p.0 else retry p.0)
unfolding run_step on_peek cached_send
run_step-head c cfg link links s n b q single h =
    let p = connect link (with_cache s n b).0 in
    let (cb, _, cc, _) = with_cache-head s n b q h in
    let (_, _, k, _) = connect-same link (with_cache s n b).0 in
    let up : p.1 ≡ (s.client.connected || link.dial_ok) =
      k ∙ ap (λ (d : Client). d.connected || link.dial_ok) cc in
    simp (peek-head s.wal n b q h.log, cb)
      (with_connection-if cfg link links n b p single
        ∙ ap (λ t. if t then send_and_wait cfg link n b p.0 else retry p.0) up)
