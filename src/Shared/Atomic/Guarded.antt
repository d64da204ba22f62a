-- ===== src/Shared/Atomic/Guarded.antt =====
-- An object that every method guards by one semaphore, from its first line to its last: AtomicVar and
-- AtomicVecQueue. A thread inside a method has local variables `l`; what it does there is a relation.
use inf.Base.{
  Bool-cases, Option, ap, arith, eq_str, eq_ℕ, inl, inr, nat_eq, none, refl, some, subst, update,
  weight, weight-ge, weight-none, weight-two, weight-update, ℕ, ℕ_discrete, ◌+◌, ◌-◌, ◌<◌, ◌≡◌, ◌≢◌,
}
use inf.Server.Connections.{eq_address}

module _ {S L : Type 0} (Start : L → Type 0) (Body : S → L → S → L → Type 0)
    (Done : L → Type 0) where
  -- The object, its semaphore, and the threads: `none` for one that is in no method.
  pub record Guarded : Type 0 where
    pub object : S
    pub semaphore : ℕ
    pub thread : ℕ → Option L

  -- A step of one of `n` threads: `sem_wait`, an access to the object, or `sem_post`.
  pub data Step (n : ℕ) (g : Guarded) (h : Guarded) : Type 0 where
    enter :
        (i : ℕ) (l : L)
        → i < n
        → g.thread i ≡ none
        → 0 < g.semaphore
        → Start l
        → h ≡ record g { semaphore = g.semaphore - 1; thread = update g.thread i (some l) }
        → Step n g h
    access :
        (i : ℕ) (l l' : L) (object : S)
        → i < n
        → g.thread i ≡ some l
        → Body g.object l object l'
        → h ≡ record g { object = object; thread = update g.thread i (some l') }
        → Step n g h
    leave :
        (i : ℕ) (l : L)
        → i < n
        → g.thread i ≡ some l
        → Done l
        → h ≡ record g { semaphore = g.semaphore + 1; thread = update g.thread i none }
        → Step n g h

  -- The constructor's object: the semaphore has the count 1, and nobody is inside.
  abbrev pub fresh : S → Guarded
  fresh object = record { object = object; semaphore = 1; thread = λ i. none }

  pub data Reach (n : ℕ) (object : S) : Guarded → Type 0 where
    start : Reach n object (fresh object)
    later : {g h : Guarded} → Reach n object g → Step n g h → Reach n object h

  abbrev pub inside : Option L → ℕ
  inside none = 0
  inside (some l) = 1

  -- What holds of the object where nobody is inside, and where a thread is inside with locals `l`.
  module _ (Free : S → Type 0) (Held : S → L → Type 0) where
    -- The two are kept by what a method does.
    pub record IsRespected : Type 0 where
      pub entered : (s : S) (l : L) → Free s → Start l → Held s l
      pub accessed : (s s' : S) (l l' : L) → Held s l → Body s l s' l' → Held s' l'
      pub left : (s : S) (l : L) → Held s l → Done l → Free s

    pub record IsGuarded (n : ℕ) (g : Guarded) : Type 0 where
      pub one : g.semaphore + weight inside n g.thread ≡ 1
      pub free : g.semaphore ≡ 1 → Free g.object
      pub held : (i : ℕ) (l : L) → i < n → g.thread i ≡ some l → Held g.object l

    module _ (n : ℕ) (g : Guarded) (v : IsGuarded n g) (i : ℕ) (lt : i < n) where
      -- Two threads are not inside at once.
      pub one_inside :
          (j : ℕ) (l l' : L) → j < n → g.thread i ≡ some l → g.thread j ≡ some l' → i ≡ j
      one_inside j l l' lt' e e' = elim (ℕ_discrete i j) [
        | yes same ↦ same
        | no other ↦ absurd (
            omega (
              arith,
              v.one,
              weight-two inside n g.thread i j lt lt' other,
              ap inside e,
              ap inside e',
            ))
      ]

      -- If nobody else is inside, what holds with the new locals is all there is to hold.
      updated_held :
          (object : S) (l' : L)
          → Held object l'
          → ((j : ℕ) (m : L) → j < n → i ≢ j → g.thread j ≡ some m → ⊥)
          → (j : ℕ) (m : L) → j < n
          → update g.thread i (some l') j ≡ some m
          → Held object m
      updated_held object l' h alone j m lt' e = elim (Bool-cases (nat_eq i j)) [
        | inl here ↦
            let same : l' ≡ m = let e' : some l' ≡ some m = rw here at e in cc in
            subst (Held object) same h
        | inr there ↦ absurd (alone j m lt' (ground arith) (rw there at e))
      ]

      entering-IsGuarded :
          IsRespected
          → (l : L) → g.thread i ≡ none
          → 0 < g.semaphore
          → Start l
          → IsGuarded n
              (record g { semaphore = g.semaphore - 1; thread = update g.thread i (some l) })
      entering-IsGuarded r l e positive s = record {
        one = omega (arith, v.one, weight-update inside n g.thread i (some l) lt, ap inside e);
        free = λ open'. absurd (omega (arith, v.one));
        held =
            updated_held g.object l (r.entered g.object l (v.free (omega (arith, v.one))) s)
              (λ j m lt' other e'.
                omega (arith, v.one, weight-ge inside n g.thread j lt', ap inside e'));
      }

      accessing-IsGuarded :
          IsRespected
          → (l l' : L) (object : S) → g.thread i ≡ some l
          → Body g.object l object l'
          → IsGuarded n (record g { object = object; thread = update g.thread i (some l') })
      accessing-IsGuarded r l l' object e b = record {
        one = omega (arith, v.one, weight-update inside n g.thread i (some l') lt, ap inside e);
        free =
            λ open'. absurd (omega (arith, v.one, weight-ge inside n g.thread i lt, ap inside e));
        held =
            updated_held object l' (r.accessed g.object object l l' (v.held i l lt e) b)
              (λ j m lt' other e'. absurd (other (one_inside j l m lt' e e')));
      }

      leaving-IsGuarded :
          IsRespected
          → (l : L) → g.thread i ≡ some l
          → Done l
          → IsGuarded n (record g { semaphore = g.semaphore + 1; thread = update g.thread i none })
      leaving-IsGuarded r l e d = record {
        one = omega (arith, v.one, weight-update inside n g.thread i none lt, ap inside e);
        free = λ open'. r.left g.object l (v.held i l lt e) d;
        held = λ j m lt' e'. elim (Bool-cases (nat_eq i j)) [
          | inl here ↦ absurd (let e2 : none ≡ some m = rw here at e' in cc)
          | inr there ↦
              let e2 : g.thread j ≡ some m = rw there at e' in
              absurd ((let same = one_inside j l m lt' e e2 in ground arith))
        ];
      }

    Step-IsGuarded :
        (n : ℕ) (g h : Guarded) → IsRespected → IsGuarded n g → Step n g h → IsGuarded n h
    Step-IsGuarded n g h r v (enter i l lt e positive s same) =
        rw same (entering-IsGuarded n g v i lt r l e positive s)
    Step-IsGuarded n g h r v (access i l l' object lt e b same) =
        rw same (accessing-IsGuarded n g v i lt r l l' object e b)
    Step-IsGuarded n g h r v (leave i l lt e d same) =
        rw same (leaving-IsGuarded n g v i lt r l e d)

    -- What the methods keep holds in every reachable state: of the object while nobody is inside, and
    -- with the locals of the one thread that is.
    pub Reach-IsGuarded :
        (n : ℕ) (object : S) (g : Guarded)
        → IsRespected
        → Free object
        → Reach n object g
        → IsGuarded n g
    Reach-IsGuarded n object g r f start = record {
      one = omega (arith, weight-none inside n (λ i. none) (λ i. refl));
      free = λ open'. f;
      held = λ i l lt e. absurd (cc);
    }
    Reach-IsGuarded n object g r f (later {g = g'} reach step) =
        Step-IsGuarded n g' g r (Reach-IsGuarded n object g' r f reach) step
