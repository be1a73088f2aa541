-- ===== src/Transport/Pipeline/Order.antt =====
-- internal/transport/tcp_server.go: the ACKs leave in the order of their frames, but for the AckFail of
-- a header that is refused.
use influx_sync.Base.{
  ℕ, zero, suc, ◌+◌, ◌-◌, ◌≤◌, ◌<◌, ◌≡◌, refl, ap, sym, ◌∙◌, true, Option, none, some, List, [],
  ◌∷◌, ◌++◌, ltb→lt, ◌==◌, ==_iff, if◌then◌else◌, arith, Bool-cases, ◌⊎◌, inl, inr, Bool, false,
  append_assoc, append-nil,
}
use mathlib.Core.Path.{subst}
use mathlib.Core.Bool.{true≢false}
use mathlib.Core.Option.{some-injective, none-ne-some}
use influx_sync.Protocol.{ack_fail}
use influx_sync.Transport.Pipeline.{
  ConnPipeline, new_conn_pipeline, result_of, delete_result, set_result, taken, next_result, close,
  advance, await_inflight, Conn, new_conn, read_frame, start_handler, leave, refuse_header, finish,
  write_ack, fail_write, frames_read,
}

result_of-delete :
    (i j : ℕ) (rs : List (ℕ × ℕ))
    → result_of j (delete_result i rs) ≡ (if i == j then none else result_of j rs)
unfolding result_of delete_result
result_of-delete i j [] = ground arith
result_of-delete i j ((k, a) ∷ rs) = ground (arith, result_of-delete i j rs)

taken-some :
    (i ack : ℕ) (p q : ConnPipeline) (r : Option ℕ)
    → taken i p r ≡ some (ack, q)
    → (r ≡ some ack) × (q.results ≡ delete_result i p.results) × (q.next ≡ p.next)
unfolding taken
taken-some i ack p q none e = absurd (none-ne-some _ e)
taken-some i ack p q (some a) e =
    let same : ◌≡◌ {A = ℕ × ConnPipeline} (a, record p { results = delete_result i p.results })
        (ack, q) =
      some-injective _ _ e in
    (ap (λ x. some x.0) same, sym (ap (λ x. x.1.results) same), sym (ap (λ x. x.1.next) same))

-- The answers to the first `n` frames, in order.
abbrev pub answers : (ℕ → ℕ) → ℕ → List ℕ
answers answer zero = []
answers answer (suc n) = answers answer n ++ (answer n ∷ [])

-- The bytes are the answers to the first `n` frames, with one AckFail among them.
pub record HasRefusal (answer : ℕ → ℕ) (n : ℕ) (bytes : List ℕ) : Type 0 where
  pub before : List ℕ
  pub after : List ℕ
  pub with_refusal : bytes ≡ before ++ (ack_fail ∷ after)
  pub without : before ++ after ≡ answers answer n

-- What a connection has written: while its loop reads, the answers in order; later perhaps with the
-- AckFail of a header.
abbrev pub IsWritten : (ℕ → ℕ) → Conn → Type 0
IsWritten answer c =
    (c.written ≡ answers answer c.pipe.next)
    ⊎ ((c.read_on ≡ false) × HasRefusal answer c.pipe.next c.written)

-- One answer more.
IsWritten-next :
    (answer : ℕ → ℕ) (c c' : Conn) (n : ℕ)
    → c.pipe.next ≡ n
    → c'.pipe.next ≡ suc n
    → c'.read_on ≡ c.read_on
    → c'.written ≡ c.written ++ (answer n ∷ [])
    → IsWritten answer c
    → IsWritten answer c'
IsWritten-next answer c c' n at up on wrote (inl h) = inl (
    wrote
    ∙ ap (λ t. t ++ (answer n ∷ [])) (h ∙ ap (answers answer) at)
    ∙ sym (ap (answers answer) up))
IsWritten-next answer c c' n at up on wrote (inr (off, r)) = inr (
  on ∙ off,
  record {
    before = r.before;
    after = r.after ++ (answer n ∷ []);
    with_refusal =
        wrote
        ∙ ap (λ t. t ++ (answer n ∷ [])) r.with_refusal
        ∙ append_assoc r.before (ack_fail ∷ r.after) (answer n ∷ []);
    without =
        sym (append_assoc r.before r.after (answer n ∷ []))
        ∙ ap (λ t. t ++ (answer n ∷ [])) (r.without ∙ ap (answers answer) at)
        ∙ sym (ap (answers answer) up);
  },
)

-- The AckFail comes behind what is written.
IsWritten-refused :
    (answer : ℕ → ℕ) (sent : Bool) (c : Conn)
    → c.read_on ≡ true
    → IsWritten answer c
    → IsWritten answer (refuse_header sent c)
unfolding refuse_header leave close
IsWritten-refused answer sent c on (inr (off, r)) = absurd (true≢false (sym on ∙ off))
IsWritten-refused answer false c on (inl h) = inl h
IsWritten-refused answer true c on (inl h) = inr (
  refl,
  record {
    before = c.written;
    after = [];
    with_refusal = refl;
    without = append-nil c.written ∙ h;
  },
)

module _ (max : ℕ) (answer : ℕ → ℕ) where
  -- What can happen on a connection, in any order: a frame is read whole, or its header is refused, or
  -- the loop that reads returns; the handler of the frame that waits starts once the window has room;
  -- the handler of a frame that was started ends; an ACK whose result is there is written, or its
  -- write fails. More is allowed than the code does: a handler may end again, the loop that reads may
  -- return at any time, and the writer goes on after it.
  pub data Step : Conn → Conn → Type 0 where
    reading : (c : Conn) (typ : ℕ) → c.read_on ≡ true → c.waiting ≡ none → Step c (read_frame typ c)
    refusing :
        (c : Conn) (sent : Bool)
        → c.read_on ≡ true
        → c.waiting ≡ none
        → Step c (refuse_header sent c)
    starting :
        (c : Conn) (fidx : ℕ)
        → c.read_on ≡ true
        → c.waiting ≡ some fidx
        → await_inflight c.idx max c.pipe ≡ true
        → Step c (start_handler fidx c)
    leaving : (c : Conn) → Step c (leave c)
    finishing : (c : Conn) (i : ℕ) → i < c.idx → Step c (finish i (answer i) c)
    writing :
        (c : Conn) (ack : ℕ) (p : ConnPipeline)
        → c.write_on ≡ true
        → next_result c.write_idx c.pipe ≡ some (ack, p)
        → Step c (write_ack ack p c)
    failing :
        (c : Conn) (ack : ℕ) (p : ConnPipeline)
        → c.write_on ≡ true
        → next_result c.write_idx c.pipe ≡ some (ack, p)
        → Step c (fail_write p c)

  pub data Reach : Conn → Type 0 where
    start : Reach new_conn
    then_ : {c c' : Conn} → Reach c → Step c c' → Reach c'

  record IsOrdered (c : Conn) : Type 0 where
    right : (i ack : ℕ) → result_of i c.pipe.results ≡ some ack → ack ≡ answer i
    started : (i ack : ℕ) → result_of i c.pipe.results ≡ some ack → i < c.idx
    in_order : IsWritten answer c
    writer : c.write_on ≡ true → c.write_idx ≡ c.pipe.next
    window : c.idx ≤ c.pipe.next + max
    behind : c.pipe.next ≤ c.idx

  -- What is left of the results after a delete.
  kept_result :
      (i j ack : ℕ) (rs : List (ℕ × ℕ))
      → result_of j (delete_result i rs) ≡ some ack
      → result_of j rs ≡ some ack
  kept_result i j ack rs e = elim (Bool-cases (i == j)) [
    | inl gone ↦
        let nothing : result_of j (delete_result i rs) ≡ none =
          result_of-delete i j rs ∙ ap (λ t. if t then none else result_of j rs) gone in
        absurd (none-ne-some _ (sym nothing ∙ e))
    | inr other ↦
        sym (result_of-delete i j rs ∙ ap (λ t. if t then none else result_of j rs) other) ∙ e
  ]

  set_result-cases :
      (i a j ack : ℕ) (p : ConnPipeline)
      → result_of j (set_result i a p).results ≡ some ack
      → ((i ≡ j) × (ack ≡ a)) ⊎ (result_of j p.results ≡ some ack)
  unfolding set_result result_of
  set_result-cases i a j ack p e = elim (Bool-cases (i == j)) [
    | inl same ↦ inl ((==_iff i j).0 same, sym (some-injective _ _ (simp same at e)))
    | inr other ↦ inr (kept_result i j ack p.results (simp other at e))
  ]

  new_conn-IsOrdered : IsOrdered new_conn
  unfolding new_conn new_conn_pipeline result_of
  new_conn-IsOrdered = record {
    right = λ i ack e. absurd (none-ne-some _ e);
    started = λ i ack e. absurd (none-ne-some _ e);
    in_order = inl refl;
    writer = λ on. refl;
    window = omega arith;
    behind = omega arith;
  }

  -- A result taken from the pipeline.
  taken-IsOrdered :
      (c : Conn) (ack : ℕ) (p : ConnPipeline)
      → next_result c.write_idx c.pipe ≡ some (ack, p)
      → IsOrdered c
      → ((i a : ℕ) → result_of i p.results ≡ some a → (a ≡ answer i) × (i < c.idx))
        × (ack ≡ answer c.write_idx)
        × (c.write_idx < c.idx)
        × (p.next ≡ c.pipe.next)
  unfolding next_result
  taken-IsOrdered c ack p took h =
      let (found, rest, next) =
        taken-some c.write_idx ack c.pipe p (result_of c.write_idx c.pipe.results) took in
      let old : (j a : ℕ) → result_of j p.results ≡ some a → result_of j c.pipe.results ≡ some a =
        λ j a e. kept_result c.write_idx j a c.pipe.results (ap (result_of j) (sym rest) ∙ e) in
      (
        λ j a e. (h.right j a (old j a e), h.started j a (old j a e)),
        h.right c.write_idx ack found,
        h.started c.write_idx ack found,
        next,
      )

  -- The loop that reads comes to its end, which changes neither results nor counts.
  same_pipe-IsOrdered :
      (c c' : Conn)
      → c'.pipe.results ≡ c.pipe.results
      → c'.pipe.next ≡ c.pipe.next
      → c'.idx ≡ c.idx
      → c'.write_idx ≡ c.write_idx
      → c'.write_on ≡ c.write_on
      → IsWritten answer c'
      → IsOrdered c
      → IsOrdered c'
  same_pipe-IsOrdered c c' er en ei ew eo wrote h = record {
    right = λ i ack e. h.right i ack (ap (result_of i) (sym er) ∙ e);
    started = λ i ack e. omega (arith, ei, h.started i ack (ap (result_of i) (sym er) ∙ e));
    in_order = wrote;
    writer = λ on. ew ∙ h.writer (sym eo ∙ on) ∙ sym en;
    window = omega (arith, en, ei, h.window);
    behind = omega (arith, en, ei, h.behind);
  }

  left-IsWritten : (c : Conn) → IsWritten answer c → IsWritten answer (leave c)
  unfolding leave close
  left-IsWritten c (inl h) = inl h
  left-IsWritten c (inr (off, r)) = inr (refl, r)

  failed-IsWritten :
      (c : Conn) (p : ConnPipeline)
      → p.next ≡ c.pipe.next
      → IsWritten answer c
      → IsWritten answer (fail_write p c)
  unfolding fail_write close
  failed-IsWritten c p next (inl h) = inl (h ∙ ap (answers answer) (sym next))
  failed-IsWritten c p next (inr (off, r)) =
      inr (off, subst (λ n. HasRefusal answer n c.written) (sym next) r)

  Step-IsOrdered : {c c' : Conn} → Step c c' → IsOrdered c → IsOrdered c'
  unfolding read_frame start_handler leave refuse_header finish write_ack fail_write advance close
      await_inflight set_result
  Step-IsOrdered (reading c typ on free) h =
      same_pipe-IsOrdered c (read_frame typ c) refl refl refl refl refl h.in_order h
  Step-IsOrdered (refusing c sent on free) h =
      same_pipe-IsOrdered c (refuse_header sent c) refl refl refl refl refl
        (IsWritten-refused answer sent c on h.in_order) h
  Step-IsOrdered (leaving c) h =
      same_pipe-IsOrdered c (leave c) refl refl refl refl refl (left-IsWritten c h.in_order) h
  Step-IsOrdered (starting c fidx on waits room) h = record {
    right = h.right;
    started = λ i ack e. omega (arith, h.started i ack e);
    in_order = h.in_order;
    writer = h.writer;
    window = omega (arith, h.behind, ltb→lt (c.idx - c.pipe.next) max room);
    behind = omega (arith, h.behind);
  }
  Step-IsOrdered (finishing c i below) h = record {
    right = λ j ack e. elim (set_result-cases i (answer i) j ack c.pipe e) [
      | inl (same, is) ↦ is ∙ ap answer same
      | inr old ↦ h.right j ack old
    ];
    started = λ j ack e. elim (set_result-cases i (answer i) j ack c.pipe e) [
      | inl (same, is) ↦ omega (arith, same, below)
      | inr old ↦ h.started j ack old
    ];
    in_order = h.in_order;
    writer = h.writer;
    window = h.window;
    behind = h.behind;
  }
  Step-IsOrdered (writing c ack p on took) h =
      let (old, is, below, next) = taken-IsOrdered c ack p took h in
      let at : c.write_idx ≡ c.pipe.next = h.writer on in
      let up : p.next + 1 ≡ suc c.pipe.next = omega (arith, next) in
      record {
        right = λ j a e. (old j a e).0;
        started = λ j a e. (old j a e).1;
        in_order =
            IsWritten-next answer c (write_ack ack p c) c.pipe.next refl up refl
              (ap (λ a. c.written ++ (a ∷ [])) (is ∙ ap answer at)) h.in_order;
        writer = λ _. omega (arith, at, next);
        window = omega (arith, h.window, next);
        behind = omega (arith, below, at, next);
      }
  Step-IsOrdered (failing c ack p on took) h =
      let (old, is, below, next) = taken-IsOrdered c ack p took h in
      record {
        right = λ j a e. (old j a e).0;
        started = λ j a e. (old j a e).1;
        in_order = failed-IsWritten c p next h.in_order;
        writer = λ off. absurd (true≢false (sym off));
        window = omega (arith, h.window, next);
        behind = omega (arith, h.behind, next);
      }

  Reach-IsOrdered : {c : Conn} → Reach c → IsOrdered c
  Reach-IsOrdered start = new_conn-IsOrdered
  Reach-IsOrdered (then_ before step) = Step-IsOrdered step (Reach-IsOrdered before)

frames_read-le : (c : Conn) (w : Option ℕ) → c.waiting ≡ w → frames_read c ≤ c.idx + 1
unfolding frames_read
frames_read-le c none e = rw e (omega arith)
frames_read-le c (some fidx) e = rw e (omega arith)

-- In whatever order the handlers of a connection end, the bytes written are, while its loop reads, the
-- answers to the first frames, one for each, in the order of the frames. Once a header was refused
-- there may be one AckFail more among them, and no other byte. At most `max` frames are with their
-- handlers or wait for their ACK, and one more is read.
pub acks_in_order :
    (max : ℕ) (answer : ℕ → ℕ) (c : Conn)
    → Reach max answer c
    → IsWritten answer c
      × (c.pipe.next ≤ c.idx)
      × (c.idx ≤ c.pipe.next + max)
      × (frames_read c ≤ c.pipe.next + max + 1)
acks_in_order max answer c run =
    let h = Reach-IsOrdered max answer run in
    (h.in_order, h.behind, h.window, omega (arith, h.window, frames_read-le c c.waiting refl))
