-- ===== src/Cell/Queue.antt =====
-- The queue of jobs is a queue of at most eight.
use dpb_s_mgmt.Base.{
  ℕ, zero, suc, ◌+◌, ◌-◌, ◌%◌, ◌≤◌, ◌<◌, ◌≡◌, ◌≢◌, refl, sym, ap, ◌∙◌, Option, none, some, List, [],
  ◌∷◌, ◌++◌, length, get_or, set, ◌==◌, arith, Bool-cases, inl, inr, Result, ok, err, general,
  length-set, get_or-set_ne,
}
use dpb_s_mgmt.Cpri.{Header}
use dpb_s_mgmt.Cell.Jobs.{Job, Jobs, job_of, busy_response, take_job}

-- The entries from a position on, around the end of the array.
abbrev pub entries : ℕ → ℕ → List (Option Job) → List (Option Job)
entries zero at q = []
entries (suc n) at q = get_or q at none ∷ entries n ((at + 1) % 8) q

-- The jobs that wait, the next one first.
abbrev pub waiting : Jobs → List (Option Job)
waiting q = entries q.count q.head q.queue

pub record IsValid (q : Jobs) : Type 0 where
  pub size : length q.queue ≡ 8
  pub head_below : q.head < 8
  pub count_most : q.count ≤ 8
  pub tail_at : q.tail ≡ (q.head + q.count) % 8

entries-set :
    (n at to : ℕ) (v : Option Job) (q : List (Option Job))
    → at < 8
    → ((i : ℕ) → i < n → to ≢ (at + i) % 8)
    → entries n at (set q to v) ≡ entries n at q
entries-set zero at to v q h away = refl
entries-set (suc n) at to v q h away =
    let here : to ≢ at = λ e. away 0 (omega arith) (omega arith) in
    rw
      (
        get_or-set_ne q to at v none here,
        entries-set n ((at + 1) % 8) to v q (omega arith)
            (λ i b e. away (suc i) (omega arith) (omega arith)),
      )
      refl

-- What a submission does: the job waits behind the others, or the queue is full, it is as it was, and the
-- failure is answered.
pub data Submitted (h : Header) (p : List ℕ) (q : Jobs)
    : Result (Unit {0}) × Jobs × Option (List ℕ) → Type 0 where
  queued :
      (q' : Jobs)
      → q.count < 8
      → IsValid q'
      → waiting q' ≡ waiting q ++ (some (job_of h p) ∷ [])
      → Submitted h p q (ok tt, q', none)
  refused : q.count ≡ 8 → Submitted h p q (err general, q, busy_response h p)

-- The next job is the one that has waited longest, and without a job there is none.
pub take_job-first :
    (q : Jobs) (j : Option Job) (q' : Jobs)
    → IsValid q
    → take_job q ≡ some (j, q')
    → IsValid q' × (waiting q ≡ j ∷ waiting q')
unfolding take_job
take_job-first q j q' v e = elim (Bool-cases (q.count == 0)) [
  | inl empty ↦ let e' : none ≡ some (j, q') = rw (take_job, empty) at e in cc
  | inr some_ ↦
      let later : Jobs = record q {
        queue = set q.queue q.head none;
        head = (q.head + 1) % 8;
        count = q.count - 1;
      } in
      let e' : some (get_or q.queue q.head none, later) ≡ some (j, q') =
        rw (take_job, some_) at e in
      let first : j ≡ get_or q.queue q.head none = cc in
      let same : q' ≡ later = cc in
      let positive : q.count ≡ suc (q.count - 1) = ground arith in
      let kept =
        entries-set (q.count - 1) ((q.head + 1) % 8) q.head none q.queue (omega arith)
          (λ i b e. absurd (omega (arith, v.head_below, v.count_most))) in
      rw (first, same)
        (
          record {
            size = length-set q.queue q.head none ∙ v.size;
            head_below = omega arith;
            count_most = omega (arith, v.count_most);
            tail_at = omega (arith, v.tail_at, v.head_below);
          },
          ap (λ (n : ℕ). entries n q.head q.queue) positive
              ∙ ap (◌∷◌ (get_or q.queue q.head none)) (sym kept),
        )
]
