-- ===== src/Disk/Keeps.antt =====
-- Programs that leave a file under a name, whatever fails, stops or is done by others.
use trawlarr.Prelude.{
  ℕ, ◌≡◌, ◌≢◌, refl, ◌∙◌, Bool, true, false, Option, none, some, Str, if◌then◌else◌,
}
use trawlarr.Disk.{
  Code, is_enoent, Node, Disk, lookup, remove, Fate, go, crash, fail, torn, Machine, World, Exit,
  returned, thrown, crashed, Io, pure, throw, on_exit, ◌>>=◌, Settled, fine, failed, settle_exit,
  settled, ignore, arrive, do_call, call_by, call, Machine, Fate, lstat, stat_file, link_at, link,
  unlink_at, unlink, rename_at, rename, open_at, open_exclusive, created_file, copy_at, copy_done,
  copy_call, copy_file, visit, if_enoent, exists,
}
use trawlarr.Disk.Names.{lookup-remove_other, lookup-put_other, lookup-put_free}

-- From `P`, the program ends in `Q`.
pub record Leads {A : Type 0} (P : World → Type 0) (m : Io A) (Q : Exit A → World → Type 0)
    : Type 0 where
  pub leads : (w : World) → P w → Q (m w).0 (m w).1

abbrev pub Caught : {A : Type 0} → (Exit A → World → Type 0) → Exit (Settled A) → World → Type 0
Caught R (returned (fine a)) w = R (returned a) w
Caught R (returned (failed c)) w = R (thrown c) w
Caught R (thrown c) w = ⊥
Caught R crashed w = R crashed w

pub Leads->>= :
    {A B : Type 0} {P : World → Type 0} (R : Exit A → World → Type 0) {Q : Exit B → World → Type 0}
    (m : Io A) (f : A → Io B)
    → Leads P m R
    → ((a : A) → Leads (R (returned a)) (f a) Q)
    → ((c : Code) (w : World) → R (thrown c) w → Q (thrown c) w)
    → ((w : World) → R crashed w → Q crashed w)
    → Leads P (m >>= f) Q
Leads->>= {A} {B} {P} R {Q} m f h k t c = record {
  leads = λ w p. by_exit (m w).0 (m w).1 (h.leads w p);
}
  where
    by_exit : (e : Exit A) (w' : World) → R e w' → Q (on_exit e w' f).0 (on_exit e w' f).1
    by_exit (returned a) w' r = (k a).leads w' r
    by_exit (thrown d) w' r = t d w' r
    by_exit crashed w' r = c w' r

pub Leads-settled :
    {A : Type 0} {P : World → Type 0} (R : Exit A → World → Type 0) (m : Io A)
    → Leads P m R
    → Leads P (settled m) (Caught R)
Leads-settled {A} {P} R m h = record { leads = λ w p. by_exit (m w).0 (m w).1 (h.leads w p) }
  where
    by_exit :
        (e : Exit A) (w' : World) → R e w' → Caught R (settle_exit e w').0 (settle_exit e w').1
    by_exit (returned a) w' r = r
    by_exit (thrown d) w' r = r
    by_exit crashed w' r = r

pub Leads-if :
    {A : Type 0} {P : World → Type 0} {Q : Exit A → World → Type 0} (b : Bool) (m k : Io A)
    → Leads P m Q
    → Leads P k Q
    → Leads P (if b then m else k) Q
Leads-if true m k x y = x
Leads-if false m k x y = y

pub Leads-done :
    {A : Type 0} {P : World → Type 0} {Q : Exit A → World → Type 0} (e : Exit A)
    → ((w : World) → P w → Q e w)
    → Leads P (λ w. (e, w)) Q
Leads-done e h = record { leads = h }

module _ (o : Node) where
  -- The others leave the file every name that it has.
  abbrev pub IsFair : Machine → Type 0
  IsFair m = (n : ℕ) (d : Disk) (p : Str) → lookup d p ≡ some o → lookup (m.others n d) p ≡ some o

  abbrev pub At : Str → World → Type 0
  At p w = IsFair w.machine × (lookup w.disk p ≡ some o)

  -- Under `p`, that is.
  pub record Keeps {A : Type 0} (p : Str) (m : Io A) : Type 0 where
    pub keeps : (w : World) → At p w → At p (m w).1

  module _ {A : Type 0} (p : Str) where
    pub Keeps-pure : (a : A) → Keeps p (pure a)
    Keeps-pure a = record { keeps = λ w h. h }

    pub Keeps-throw : (c : Code) → Keeps p (throw {A = A} c)
    Keeps-throw c = record { keeps = λ w h. h }

    pub Keeps-settled : (m : Io A) → Keeps p m → Keeps p (settled m)
    Keeps-settled m k = record { keeps = λ w h. by_exit (m w).0 (m w).1 (k.keeps w h) }
      where
        by_exit : (e : Exit A) (w' : World) → At p w' → At p (settle_exit e w').1
        by_exit (returned a) w' r = r
        by_exit (thrown d) w' r = r
        by_exit crashed w' r = r

    pub Keeps-if : (b : Bool) {m k : Io A} → Keeps p m → Keeps p k → Keeps p (if b then m else k)
    Keeps-if true x y = x
    Keeps-if false x y = y

    pub Keeps->>= :
        {B : Type 0} (m : Io A) (f : A → Io B)
        → Keeps p m
        → ((a : A) → Keeps p (f a))
        → Keeps p (m >>= f)
    Keeps->>= {B} m f x y = record { keeps = λ w h. by_exit (m w).0 (m w).1 (x.keeps w h) }
      where
        by_exit : (e : Exit A) (w' : World) → At p w' → At p (on_exit e w' f).1
        by_exit (returned a) w' r = (y a).keeps w' r
        by_exit (thrown d) w' r = r
        by_exit crashed w' r = r

    -- A call keeps the file if its effect does.
    pub Keeps-call_by :
        (fates : Machine → ℕ → Fate) (f : Disk → Exit A × Disk)
        → ((d : Disk) → lookup d p ≡ some o → lookup (f d).1 p ≡ some o)
        → Keeps p (call_by fates f)
    Keeps-call_by fates f k = record {
      keeps = λ w h. by_decision w h.0 (h.0 w.calls w.disk p h.1) (fates w.machine w.calls);
    }
      where
        by_decision :
            (w : World)
            → IsFair w.machine
            → lookup (arrive w).disk p ≡ some o
            → (x : Fate) → At p (do_call x f (arrive w)).1
        by_decision w fair at go = (fair, k (arrive w).disk at)
        by_decision w fair at crash = (fair, at)
        by_decision w fair at (fail c) = (fair, at)
        by_decision w fair at (torn c) = (fair, at)

    pub Keeps-call :
        (f : Disk → Exit A × Disk)
        → ((d : Disk) → lookup d p ≡ some o → lookup (f d).1 p ≡ some o)
        → Keeps p (call f)
    unfolding call
    Keeps-call f k = Keeps-call_by (λ m. m.decide) f k

  pub Keeps-ignore : {A : Type 0} (p : Str) (m : Io A) → Keeps p m → Keeps p (ignore m)
  Keeps-ignore p m k = Keeps->>= p (settled m) _ (Keeps-settled p m k) (λ r. Keeps-pure p tt)

  module _ (p : Str) where
    pub Keeps-lstat : (q : Str) → Keeps p (lstat q)
    unfolding lstat
    Keeps-lstat q = Keeps-call p _ (λ d at. at)

    pub Keeps-visit : Keeps p visit
    unfolding visit
    Keeps-visit = Keeps-call p _ (λ d at. at)

    pub Keeps-stat_file : (q : Str) → Keeps p (stat_file q)
    unfolding stat_file
    Keeps-stat_file q = record { keeps = λ w h. (Keeps-call p _ (λ d at. at)).keeps w h }

    pub Keeps-exists : (q : Str) → Keeps p (exists q)
    unfolding exists
    Keeps-exists q =
        Keeps->>= p (settled (lstat q)) if_enoent (Keeps-settled p _ (Keeps-lstat q)) by_node
      where
        by_node : (r : Settled Node) → Keeps p (if_enoent r)
        by_node (fine n) = Keeps-pure p true
        by_node (failed c) = Keeps-if p (is_enoent c) (Keeps-pure p false) (Keeps-throw p c)

    -- A link is made only where there is nothing.
    pub Keeps-link : (from to : Str) → Keeps p (link from to)
    unfolding link
    Keeps-link from to =
        Keeps-call_by p (λ m. m.decide_link) _
          (λ d at. by_nodes d at (lookup d from) (lookup d to) refl)
      where
        by_nodes :
            (d : Disk)
            → lookup d p ≡ some o
            → (source target : Option Node) → lookup d to ≡ target
            → lookup (link_at d to source target).1 p ≡ some o
        by_nodes d at none target e = at
        by_nodes d at (some n) (some m) e = at
        by_nodes d at (some n) none e = lookup-put_free d p to n e at

    pub Keeps-open_exclusive : (q : Str) → Keeps p (open_exclusive q)
    unfolding open_exclusive
    Keeps-open_exclusive q = record {
      keeps = λ w h.
          (Keeps-call p _ (λ d at. by_node (created_file w 0) d at (lookup d q) refl)).keeps w h;
    }
      where
        by_node :
            (n : Node) (d : Disk)
            → lookup d p ≡ some o
            → (target : Option Node) → lookup d q ≡ target
            → lookup (open_at n d q target).1 p ≡ some o
        by_node n d at (some m) e = at
        by_node n d at none e = lookup-put_free d p q n e at

    pub Keeps-unlink : (q : Str) → q ≢ p → Keeps p (unlink q)
    unfolding unlink
    Keeps-unlink q h = Keeps-call p _ (λ d at. by_node d at (lookup d q))
      where
        by_node :
            (d : Disk)
            → lookup d p ≡ some o
            → (target : Option Node) → lookup (unlink_at d q target).1 p ≡ some o
        by_node d at none = at
        by_node d at (some n) = lookup-remove_other d p q h ∙ at

    pub Keeps-rename : (from to : Str) → from ≢ p → to ≢ p → Keeps p (rename from to)
    unfolding rename
    Keeps-rename from to h k = Keeps-call p _ (λ d at. by_node d at (lookup d from))
      where
        by_node :
            (d : Disk)
            → lookup d p ≡ some o
            → (source : Option Node) → lookup (rename_at d from to source).1 p ≡ some o
        by_node d at none = at
        by_node d at (some n) =
            lookup-put_other (remove d from) p to n k ∙ (lookup-remove_other d p from h ∙ at)

    pub Keeps-copy_file : (from to : Str) → to ≢ p → Keeps p (copy_file from to)
    unfolding copy_file
    Keeps-copy_file from to h = record {
      keeps = λ w at.
          by_decision (arrive w) (at.0, at.0 w.calls w.disk p at.1) (w.machine.decide w.calls);
    }
      where
        done : (w : World) → At p w → (source : Option Node) → At p (copy_done w to source).1
        done w at none = at
        done w (fair, at) (some n) = (fair, lookup-put_other w.disk p to _ h ∙ at)

        partly :
            (w : World) (size : ℕ)
            → At p w
            → (source : Option Node) → lookup (copy_at w w.disk to source size) p ≡ some o
        partly w size (fair, at) none = at
        partly w size (fair, at) (some n) = lookup-put_other w.disk p to _ h ∙ at

        by_decision : (w : World) → At p w → (x : Fate) → At p (copy_call x from to w).1
        by_decision w at go = done w at (lookup w.disk from)
        by_decision w at crash = (at.0, partly w _ at (lookup w.disk from))
        by_decision w at (fail c) = at
        by_decision w at (torn c) = (at.0, partly w _ at (lookup w.disk from))

    -- The same, as a statement on how a program ends.
    pub Keeps-Leads : {A : Type 0} (m : Io A) → Keeps p m → Leads (At p) m (λ e w. At p w)
    Keeps-Leads m k = record { leads = k.keeps }

  -- The file stays, and no error is thrown.
  abbrev pub IsCalm : {A : Type 0} → Str → Exit A → World → Type 0
  IsCalm p (returned a) w = At p w
  IsCalm p (thrown c) w = ⊥
  IsCalm p crashed w = At p w

  pub settled-IsCalm :
      {A : Type 0} (p : Str) (m : Io A) → Keeps p m → Leads (At p) (settled m) (IsCalm p)
  settled-IsCalm {A} p m k = record { leads = λ w at. by_exit (m w).0 (m w).1 (k.keeps w at) }
    where
      by_exit : (e : Exit A) (w : World) → At p w → IsCalm p (settle_exit e w).0 (settle_exit e w).1
      by_exit (returned a) w at = at
      by_exit (thrown d) w at = at
      by_exit crashed w at = at

  -- After a program that throws no error.
  pub calm_then :
      {A B : Type 0} {Q : Exit B → World → Type 0} (p : Str) (m : Io A) (f : A → Io B)
      → Leads (At p) m (IsCalm p)
      → ((a : A) → Leads (At p) (f a) Q)
      → ((w : World) → At p w → Q crashed w)
      → Leads (At p) (m >>= f) Q
  calm_then p m f h k c = Leads->>= (IsCalm p) m f h k (λ d w at. absurd at) c

  pub ignore-IsCalm :
      {A : Type 0} (p : Str) (m : Io A) → Keeps p m → Leads (At p) (ignore m) (IsCalm p)
  ignore-IsCalm p m k =
      calm_then p (settled m) _ (settled-IsCalm p m k) (λ r. Leads-done (returned tt) (λ w at. at))
        (λ w at. at)
