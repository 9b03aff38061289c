-- ===== src/Approver/Asking.antt =====
-- What the calls of `Confirm` of internal/server/approver.go were asked, and what their entries keep of it.
use joyvend_secretvault.Shared.{
  ℕ, ◌≡◌, refl, sym, ap, ◌∙◌, Option, none, some, List, [], ◌∷◌, false, if◌then◌else◌, Bool-cases,
  inl, inr,
}
use joyvend_secretvault.Text.{Bytes, bytes_eq, bytes_eq_iff, bytes_eq_refl}
use joyvend_secretvault.Maps.{lookup}
use joyvend_secretvault.Fetch.{ConfirmRequest}
use joyvend_secretvault.Approver.{PendingReq, PendingApprover}
use joyvend_secretvault.Approver.Steps.{
  Step, enter, select, finish, deliver, target, after, run_step, lookup-run_step, run_steps,
}

-- What a call of `Confirm` brings: its ID, the time and the request.
abbrev pub Asked : Type 0
Asked = Bytes × ℕ × ConfirmRequest

abbrev pub details : Option PendingReq → Option Asked
details none = none
details (some pr) =
    some
      (pr.id, pr.created, record { credential = pr.credential; method = pr.method; host = pr.host })

abbrev first_of : Option Asked → Option Asked → Option Asked
first_of none later = later
first_of (some d) later = some d

-- What the first call of `Confirm` with a pointer was asked.
abbrev pub asked_at : Bytes → List Step → Option Asked
asked_at ptr [] = none
asked_at ptr (enter p id now r ∷ steps) =
    let later = asked_at ptr steps in if bytes_eq p ptr then some (id, now, r) else later
asked_at ptr (x ∷ steps) = asked_at ptr steps

details-after :
    (x : Step) (o : Option PendingReq)
    → details (after x o) ≡ first_of (details o) (asked_at (target x) (x ∷ []))
details-after (enter p id now r) none = rw (bytes_eq_refl p) refl
details-after (enter p id now r) (some pr) = refl
details-after (select w p) none = refl
details-after (select w p) (some pr) = refl
details-after (finish p) none = refl
details-after (finish p) (some pr) = refl
details-after (deliver p b) none = refl
details-after (deliver p b) (some pr) = refl

asked_at_other :
    (x : Step) (ptr : Bytes) → bytes_eq (target x) ptr ≡ false → asked_at ptr (x ∷ []) ≡ none
asked_at_other (enter p id now r) ptr h = rw h refl
asked_at_other (select w p) ptr h = refl
asked_at_other (finish p) ptr h = refl
asked_at_other (deliver p b) ptr h = refl

first_of-none : (o : Option Asked) → first_of o none ≡ o
first_of-none none = refl
first_of-none (some d) = refl

details-run_step :
    (x : Step) (s : PendingApprover) (ptr : Bytes)
    → details (lookup ptr (run_step x s).heap)
      ≡ first_of (details (lookup ptr s.heap)) (asked_at ptr (x ∷ []))
details-run_step x s ptr =
    rw (lookup-run_step x s ptr) (elim (Bool-cases (bytes_eq (target x) ptr)) [
      | inl hit ↦
          let same : target x ≡ ptr = (bytes_eq_iff (target x) ptr).0 hit in
          let o = lookup ptr s.heap in
          rw hit (details-after x o ∙ ap (λ q. first_of (details o) (asked_at q (x ∷ []))) same)
      | inr other ↦ rw (other, asked_at_other x ptr other) (sym (first_of-none _))
    ])

asked_at_step :
    (x : Step) (steps : List Step) (ptr : Bytes)
    → asked_at ptr (x ∷ steps) ≡ first_of (asked_at ptr (x ∷ [])) (asked_at ptr steps)
asked_at_step (enter p id now r) steps ptr = elim (Bool-cases (bytes_eq p ptr)) [
  | inl t ↦ rw t refl
  | inr f ↦ rw f refl
]
asked_at_step (select w p) steps ptr = refl
asked_at_step (finish p) steps ptr = refl
asked_at_step (deliver p b) steps ptr = refl

first_of_assoc : (a b c : Option Asked) → first_of (first_of a b) c ≡ first_of a (first_of b c)
first_of_assoc none b c = refl
first_of_assoc (some d) b c = refl

pub details-run_steps :
    (steps : List Step) (s : PendingApprover) (ptr : Bytes)
    → details (lookup ptr (run_steps steps s).heap)
      ≡ first_of (details (lookup ptr s.heap)) (asked_at ptr steps)
unfolding run_steps
details-run_steps [] s ptr = sym (first_of-none _)
details-run_steps (x ∷ steps) s ptr =
    details-run_steps steps (run_step x s) ptr
    ∙ ap (λ o. first_of o (asked_at ptr steps)) (details-run_step x s ptr)
    ∙ first_of_assoc (details (lookup ptr s.heap)) (asked_at ptr (x ∷ [])) (asked_at ptr steps)
    ∙ ap (first_of (details (lookup ptr s.heap))) (sym (asked_at_step x steps ptr))
