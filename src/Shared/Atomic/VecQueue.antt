-- ===== src/Shared/Atomic/VecQueue.antt =====
-- AtomicVecQueue of shared/atomic.h: many threads push and drain; what is pushed is drained once, in
-- order. What was pushed and drained so far is recorded beside the vector, which the code does not do.
use inf.Base.{
  List, Option, [], ap, append-nil, append_assoc, arith, dec_lt, eq_str, eq_ℕ, none, refl, some,
  sym, weight, weight-member, ℕ, ◌++◌, ◌<◌, ◌∙◌, ◌∷◌, ◌≡◌,
}
use inf.Server.Connections.{eq_address}
use inf.Shared.Atomic.Guarded.{Guarded, IsRespected, Reach, Reach-IsGuarded, inside}

module _ (A : Type 0) where
  pub record Vec : Type 0 where
    pub vec_queue : List A
    pub pushed : List A
    pub drained : List A

  -- A constructor's vector.
  abbrev pub new_vec : Vec
  new_vec = record { vec_queue = []; pushed = []; drained = [] }

  -- The methods' locals: before and after each access.
  pub data VecLocal : Type 0 where
    pushing : A → VecLocal
    pushed_one : VecLocal
    extending : List A → VecLocal
    extended : VecLocal
    draining : VecLocal
    copied : (drained_results : List A) → VecLocal
    cleared : (drained_results : List A) → VecLocal

  pub data VecStart : VecLocal → Type 0 where
    push : (new_val : A) → VecStart (pushing new_val)
    extend : (new_vals : List A) → VecStart (extending new_vals)
    drain : VecStart draining

  abbrev pub insert_all : Vec → List A → Vec
  insert_all v new_vals = record v {
    vec_queue = v.vec_queue ++ new_vals;
    pushed = v.pushed ++ new_vals;
  }

  pub data VecBody (v : Vec) : VecLocal → Vec → VecLocal → Type 0 where
    push_back : (new_val : A) → VecBody v (pushing new_val) (insert_all v (new_val ∷ [])) pushed_one
    insert_end :
        (new_vals : List A) → VecBody v (extending new_vals) (insert_all v new_vals) extended
    copy : VecBody v draining v (copied v.vec_queue)
    clear :
        (drained_results : List A)
        → VecBody v
            (copied drained_results)
            (record v { vec_queue = []; drained = v.drained ++ drained_results })
            (cleared drained_results)

  pub data VecDone : VecLocal → Type 0 where
    push_returns : VecDone pushed_one
    extend_returns : VecDone extended
    drain_returns : (drained_results : List A) → VecDone (cleared drained_results)

  -- All that was pushed is what was drained, and then what is still there.
  abbrev pub IsFifo : Vec → Type 0
  IsFifo v = v.pushed ≡ v.drained ++ v.vec_queue

  abbrev VecHeld : Vec → VecLocal → Type 0
  VecHeld v (copied drained_results) = IsFifo v × (drained_results ≡ v.vec_queue)
  VecHeld v _ = IsFifo v

  vec_entered : (v : Vec) (l : VecLocal) → IsFifo v → VecStart l → VecHeld v l
  vec_entered v l h (push new_val) = h
  vec_entered v l h (extend new_vals) = h
  vec_entered v l h drain = h

  insert_all-IsFifo : (v : Vec) (new_vals : List A) → IsFifo v → IsFifo (insert_all v new_vals)
  insert_all-IsFifo v new_vals h =
      ap (λ (l : List A). l ++ new_vals) h ∙ append_assoc v.drained v.vec_queue new_vals

  vec_accessed : (v v' : Vec) (l l' : VecLocal) → VecHeld v l → VecBody v l v' l' → VecHeld v' l'
  vec_accessed v v' l l' h (push_back new_val) = insert_all-IsFifo v (new_val ∷ []) h
  vec_accessed v v' l l' h (insert_end new_vals) = insert_all-IsFifo v new_vals h
  vec_accessed v v' l l' h copy = (h, refl)
  vec_accessed v v' l l' h (clear drained_results) =
      h.0 ∙ ap (◌++◌ v.drained) (sym h.1) ∙ sym (append-nil (v.drained ++ drained_results))

  vec_left : (v : Vec) (l : VecLocal) → VecHeld v l → VecDone l → IsFifo v
  vec_left v l h push_returns = h
  vec_left v l h extend_returns = h
  vec_left v l h (drain_returns drained_results) = h

  vec-IsRespected : IsRespected VecStart VecBody VecDone IsFifo VecHeld
  vec-IsRespected = record { entered = vec_entered; accessed = vec_accessed; left = vec_left }

  held-IsFifo : (v : Vec) (l : VecLocal) → VecHeld v l → IsFifo v
  held-IsFifo v (pushing new_val) h = h
  held-IsFifo v pushed_one h = h
  held-IsFifo v (extending new_vals) h = h
  held-IsFifo v extended h = h
  held-IsFifo v draining h = h
  held-IsFifo v (copied drained_results) h = h.0
  held-IsFifo v (cleared drained_results) h = h

  some_local :
      (o : Option VecLocal) → 0 < inside VecStart VecBody VecDone o → (l : VecLocal) × (o ≡ some l)
  some_local none h = absurd (omega arith)
  some_local (some l) h = (l, refl)

  -- In every reachable state of any number of threads, whoever is inside a method: all that was
  -- pushed, in order, is what was drained, in order, and then what is there.
  pub vec-IsFifo :
      (n : ℕ) (g : Guarded VecStart VecBody VecDone)
      → Reach VecStart VecBody VecDone n new_vec g
      → IsFifo g.object
  vec-IsFifo n g r =
      let v =
        Reach-IsGuarded VecStart VecBody VecDone IsFifo VecHeld n new_vec g vec-IsRespected refl
          r in
      elim (dec_lt 0 (weight (inside VecStart VecBody VecDone) n g.thread)) [
        | yes busy ↦
            let (i, lt, positive) =
              weight-member (inside VecStart VecBody VecDone) n g.thread busy in
            let (l, e) = some_local (g.thread i) positive in
            held-IsFifo g.object l (v.held i l lt e)
        | no idle ↦ v.free (omega (arith, v.one))
      ]
