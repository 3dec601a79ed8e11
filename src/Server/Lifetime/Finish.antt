-- ===== src/Server/Lifetime/Finish.antt =====
-- A deferred call of src/server.c that is completed or fails.
use wirecall.Common.{
  ℕ, Bool, true, false, not, ◌&&◌, List, ◌==◌, ◌≡◌, ◌≢◌, refl, ap, ◌∙◌, Bool-cases, inl, inr, ==→eq,
  ==→ne, ne→==, ==_self, sym, subst,
}
use wirecall.Memory.{Mem}
use wirecall.Server.{Deferred, Worker, put, put_deferred, in_use}
use wirecall.Server.Text
use wirecall.Server.Host.{Progress, open_call, completes, fails}
use wirecall.Server.Calls.{
  worker_queue_completed, deferred_complete, deferred_fail, error_text, progress, deferred_returned,
}
use wirecall.Server.Lifetime.Elements.{in_use-append, append-Distinct}
use wirecall.Server.Lifetime.Alive.{call_weight}
use wirecall.Server.Lifetime.Ready.{Ended, Ready, Alike, Alike-Alive}

-- The same call, but for its result.
abbrev finished : Bool → List ℕ → Deferred → Deferred
finished result error call = record call { completed = true; result = result; error = error }

pub call_at-put : (k : ℕ) (call : Deferred) (w : Worker) → (put_deferred k call w).call_at k ≡ call
unfolding put_deferred put
call_at-put k call w = rw (==_self k) refl

pub call_at-put_other :
    (j k : ℕ) (call : Deferred) (w : Worker)
    → j ≢ k
    → (put_deferred k call w).call_at j ≡ w.call_at j
unfolding put_deferred put
call_at-put_other j k call w ne = rw (ne→== j k ne) refl

module _ (base c k : ℕ) (result : Bool) (error : List ℕ) (w : Worker) (s : Mem)
    (h : Ready base c w s) (here : in_use k w.deferred_arena ≡ true)
    (unmarked : (w.call_at k).completed ≡ false) where
  abbrev call : Deferred
  call = finished result error (w.call_at k)

  part_same :
      {A : Type 0} (f : Deferred → A)
      → ((x : Deferred) → f (finished result error x) ≡ f x)
      → (j : ℕ) → f ((put_deferred k call w).call_at j) ≡ f (w.call_at j)
  part_same f same_part j = elim (Bool-cases (j == k)) [
    | inl same ↦
        subst (λ x. f ((put_deferred k call w).call_at x) ≡ f (w.call_at x)) (sym (==→eq j k same))
          (ap f (call_at-put k call w) ∙ same_part (w.call_at k))
    | inr other ↦ ap f (call_at-put_other j k call w (==→ne j k other))
  ]

  out : in_use k w.completed ≡ false
  out = elim (Bool-cases (in_use k w.completed)) [
    | inl inside ↦ let mark = (h.ended.used k inside).1 in cc
    | inr absent ↦ absent
  ]

  Alike-finished : Alike w (worker_queue_completed k (put_deferred k call w))
  unfolding worker_queue_completed put_deferred
  Alike-finished = record {
    conns = refl;
    connections = refl;
    pending_writes = refl;
    connection_arena = refl;
    deferred_arena = refl;
    conn = λ j e. part_same Deferred.conn (λ x. refl) j;
    args = λ j e. part_same Deferred.args (λ x. refl) j;
    held = λ j e. part_same call_weight (λ x. refl) j;
  }

  marks :
      (j : ℕ)
      → (w.call_at j).completed ≡ true
      → ((put_deferred k call w).call_at j).completed ≡ true
  marks j e = elim (Bool-cases (j == k)) [
    | inl same ↦
        subst (λ x. ((put_deferred k call w).call_at x).completed ≡ true) (sym (==→eq j k same))
          (ap Deferred.completed (call_at-put k call w))
    | inr other ↦ ap Deferred.completed (call_at-put_other j k call w (==→ne j k other)) ∙ e
  ]

  Ended-finished : Ended (worker_queue_completed k (put_deferred k call w))
  unfolding worker_queue_completed put_deferred
  Ended-finished = record {
    once = append-Distinct k w.completed h.ended.once out;
    used = λ j e. elim (in_use-append j k w.completed e) [
      | inl before ↦ let (used, mark) = h.ended.used j before in (used, marks j mark)
      | inr same ↦
          subst
            (λ x.
              (in_use x w.deferred_arena ≡ true)
              × (((put_deferred k call w).call_at x).completed ≡ true))
            (sym same) (here, ap Deferred.completed (call_at-put k call w))
    ];
  }

  pub Ready-finished : Ready base c (worker_queue_completed k (put_deferred k call w)) s
  unfolding worker_queue_completed put_deferred
  Ready-finished = record {
    alive =
        Alike-Alive base w (worker_queue_completed k (put_deferred k call w)) s h.alive
          Alike-finished;
    here = h.here;
    attached = h.attached;
    ended = Ended-finished;
  }

deferred_complete-Ready :
    (base c k : ℕ) (w : Worker) (s : Mem)
    → Ready base c w s
    → in_use k w.deferred_arena ≡ true
    → Ready base c (deferred_complete k w).1 s
unfolding deferred_complete
deferred_complete-Ready base c k w s h here = elim (Bool-cases (w.call_at k).completed) [
  | inl again ↦ rw again h
  | inr first ↦ rw first (Ready-finished base c k true (w.call_at k).error w s h here first)
]

deferred_fail-Ready :
    (base c k : ℕ) (message : List ℕ) (w : Worker) (s : Mem)
    → Ready base c w s
    → in_use k w.deferred_arena ≡ true
    → Ready base c (deferred_fail k message w).1 s
unfolding deferred_fail
deferred_fail-Ready base c k message w s h here = elim (Bool-cases (w.call_at k).completed) [
  | inl again ↦ rw again h
  | inr first ↦ rw first (Ready-finished base c k false (error_text message) w s h here first)
]

-- A call that ends stays in use.
complete-deferred_arena :
    (k : ℕ) (w : Worker) → (deferred_complete k w).1.deferred_arena ≡ w.deferred_arena
unfolding deferred_complete worker_queue_completed put_deferred
complete-deferred_arena k w = elim (Bool-cases (w.call_at k).completed) [
  | inl again ↦ rw again refl
  | inr first ↦ rw first refl
]

fail-deferred_arena :
    (k : ℕ) (message : List ℕ) (w : Worker)
    → (deferred_fail k message w).1.deferred_arena ≡ w.deferred_arena
unfolding deferred_fail worker_queue_completed put_deferred
fail-deferred_arena k message w = elim (Bool-cases (w.call_at k).completed) [
  | inl again ↦ rw again refl
  | inr first ↦ rw first refl
]

-- What the handler did, and the test of its result.
progress-Ready :
    (base c k : ℕ) (done : Progress) (w : Worker) (s : Mem)
    → Ready base c w s
    → in_use k w.deferred_arena ≡ true
    → Ready base c (progress k done w) s × (in_use k (progress k done w).deferred_arena ≡ true)
unfolding progress
progress-Ready base c k open_call w s h here = (h, here)
progress-Ready base c k completes w s h here = (
  deferred_complete-Ready base c k w s h here,
  ap (in_use k) (complete-deferred_arena k w) ∙ here,
)
progress-Ready base c k (fails message) w s h here = (
  deferred_fail-Ready base c k message w s h here,
  ap (in_use k) (fail-deferred_arena k message w) ∙ here,
)

pub returned-Ready :
    (base c k : ℕ) (result : Bool) (done : Progress) (w : Worker) (s : Mem)
    → Ready base c w s
    → in_use k w.deferred_arena ≡ true
    → Ready base c (deferred_returned k result (progress k done w)) s
unfolding deferred_returned
returned-Ready base c k result done w s h here =
    let w' = progress k done w in
    let (ready, still) = progress-Ready base c k done w s h here in
    elim (Bool-cases (not result && not (w'.call_at k).completed)) [
      | inl failed ↦ rw failed (deferred_fail-Ready base c k Text.deferred_failed w' s ready still)
      | inr fine ↦ rw fine ready
    ]
