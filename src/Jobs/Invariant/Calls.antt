-- ===== src/Jobs/Invariant/Calls.antt =====
-- Composing calls that keep the invariant of the repository.
use yolo_ave_mujica.Base.{
  ◌≡◌, refl, ◌∙◌, nat_key, text_key, arith, state_of, Try, value, fault, ok, err, Outcome, ◌>>=◌,
  and_then, attempt,
}
use yolo_ave_mujica.Jobs.Model.{Job, Error}
use yolo_ave_mujica.Jobs.StateMachine.Lifecycle.{here, Reach-trans}
use yolo_ave_mujica.Jobs.Repository.{InMemoryRepository, Result}
use yolo_ave_mujica.Jobs.Dispatcher.{ServiceState, Action, on_repo, with_repo}
use yolo_ave_mujica.Jobs.Invariant.{Advances, Evolves, After, RepoKeeps, Keeps}

pub Advances-refl : (j : Job) → Advances j j
Advances-refl j = record {
  same_id = refl;
  same_key = refl;
  same_payload = refl;
  same_creation = refl;
  moved = here;
  retried = omega arith;
}

pub Advances-trans : (i j k : Job) → Advances i j → Advances j k → Advances i k
Advances-trans i j k a b = record {
  same_id = b.same_id ∙ a.same_id;
  same_key = b.same_key ∙ a.same_key;
  same_payload = b.same_payload ∙ a.same_payload;
  same_creation = b.same_creation ∙ a.same_creation;
  moved = Reach-trans a.moved b.moved;
  retried = omega arith;
}

pub Evolves-refl : (r : InMemoryRepository) → Evolves r r
Evolves-refl r k j h = (j, h, Advances-refl j)

pub Evolves-trans : (r t u : InMemoryRepository) → Evolves r t → Evolves t u → Evolves r u
Evolves-trans r t u p q k j h =
    let (j', h', a) = p k j h in
    let (j'', h'', b) = q k j' h' in (j'', h'', Advances-trans j j' j'' a b)

-- The same jobs, whatever else changed.
pub Evolves-same : (r t : InMemoryRepository) → t.by_id ≡ r.by_id → Evolves r t
Evolves-same r t e k j h = (j, rw e h, Advances-refl j)

and_then-After :
    {A B : Type 0} (s : ServiceState) (o : Outcome Error ServiceState A) (f : A → Action B)
    → After s.repo (state_of o).repo
    → ((a : A) → Keeps (f a))
    → After s.repo (state_of (and_then o f)).repo
and_then-After s (err e t) f a kf = a
and_then-After s (ok a t) f (inv, ev) kf =
    let (inv', ev') = (kf a).after t inv in
    (inv', Evolves-trans s.repo t.repo (state_of (f a t)).repo ev ev')

pub Keeps-bind :
    {A B : Type 0} (m : Action A) (f : A → Action B)
    → Keeps m
    → ((a : A) → Keeps (f a))
    → Keeps (m >>= f)
Keeps-bind m f km kf = record { after = λ s inv. and_then-After s (m s) f (km.after s inv) kf }

with_repo-After :
    {A : Type 0} (s : ServiceState) (o : Outcome Error InMemoryRepository A)
    → After s.repo (state_of o)
    → After s.repo (state_of (with_repo s o)).repo
with_repo-After s (ok a r) h = h
with_repo-After s (err e r) h = h

pub Keeps-on_repo :
    {A : Type 0} (m : InMemoryRepository → Result A) → RepoKeeps m → Keeps (on_repo m)
Keeps-on_repo m k = record { after = λ s inv. with_repo-After s (m s.repo) (k.after s.repo inv) }

pub Keeps-ok : {A : Type 0} (a : A) → Keeps (ok a)
Keeps-ok a = record { after = λ s inv. (inv, Evolves-refl s.repo) }

pub Keeps-err : (A : Type 0) (e : Error) → Keeps {A = A} (err e)
Keeps-err A e = record { after = λ s inv. (inv, Evolves-refl s.repo) }

pub Keeps-attempt : {A : Type 0} (t : Try Error A) → Keeps (attempt t)
Keeps-attempt (value a) = Keeps-ok a
Keeps-attempt {A} (fault e) = Keeps-err A e
