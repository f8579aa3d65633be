-- ===== src/Os/System/Places.antt =====
-- What the places of the processes mean for the CPUs of src/os.c.
use os_lamina_atrium.Base.{
  ℕ, zero, suc, ◌+◌, ◌≤◌, ◌≡◌, ◌≢◌, refl, sym, ap, List, [], ◌∷◌, Option, none, some, arith, length,
  get_elem?, All,
}
use os_lamina_atrium.Queue.{null, max_queue_size}
use os_lamina_atrium.Sched.Conserve.{ready_count}
use os_lamina_atrium.Cpu.{Process}
use os_lamina_atrium.Os.{Setting}
use os_lamina_atrium.Os.System.{
  Place, at_top, at_first, at_reload, at_recheck, at_exit, Thread, System, Turn, turns,
}
use os_lamina_atrium.Os.System.Account.{live, holds}
use os_lamina_atrium.Os.System.Loading.{IsFresh, IsPrio}
use os_lamina_atrium.Os.System.Preserve.{held}
use os_lamina_atrium.Os.System.Safety.{turns-IsSafe, turns-NoneLost}
use os_lamina_atrium.Memphy.{Memphy}
use os_lamina_atrium.Os.Boot.{Config, main}

-- The CPU has the process at hand: it has not let it go.
pub record Has (sys : System) (n p : ℕ) : Type 0 where
  pub thread : Thread
  pub there : get_elem? sys.cpus n ≡ some thread
  pub at_hand : thread.cpu.proc ≡ p
  pub not_let_go : thread.place ≢ at_reload

pub one_held :
    (a : ℕ) (ts : List Thread) (n : ℕ) (t : Thread)
    → get_elem? ts n ≡ some t
    → holds a t ≤ held a ts
one_held a [] n t e = cc (e)
one_held a (s ∷ ts) zero t e = let same : s ≡ t = cc (e) in rw same (omega arith)
one_held a (s ∷ ts) (suc n) t e = omega (arith, one_held a ts n t e)

two_held :
    (a : ℕ) (ts : List Thread) (n k : ℕ) (t t' : Thread)
    → n ≢ k
    → get_elem? ts n ≡ some t
    → get_elem? ts k ≡ some t'
    → holds a t + holds a t' ≤ held a ts
two_held a [] n k t t' h e e' = cc (e)
two_held a (s ∷ ts) zero zero t t' h e e' = absurd (h refl)
two_held a (s ∷ ts) zero (suc k) t t' h e e' =
    let same : s ≡ t = cc (e) in rw same (omega (arith, one_held a ts k t' e'))
two_held a (s ∷ ts) (suc n) zero t t' h e e' =
    let same : s ≡ t' = cc (e') in rw same (omega (arith, one_held a ts n t e))
two_held a (s ∷ ts) (suc n) (suc k) t t' h e e' =
    omega (arith, two_held a ts n k t t' (λ same. h (ap suc same)) e e')

pub holds_one : (a : ℕ) (t : Thread) → t.cpu.proc ≡ a → t.place ≢ at_reload → holds a t ≡ 1
holds_one a t e h = go t.place refl
  where
    go : (p : Place) → t.place ≡ p → holds a t ≡ 1
    go at_top e' = rw e' (ground arith)
    go at_first e' = rw e' (ground arith)
    go at_reload e' = absurd (h e')
    go at_recheck e' = rw e' (ground arith)
    go at_exit e' = rw e' (ground arith)

pub Has-holds : (sys : System) (n p : ℕ) (h : Has sys n p) → holds p h.thread ≡ 1
Has-holds sys n p h = holds_one p h.thread h.at_hand h.not_let_go

module _ (st : Setting) (junk : List ℕ) (mp : Memphy) (config : Config)
    (fresh : IsFresh st.malloc_pcb) (prios : All IsPrio config.processes) (ts : List Turn)
    (sys : System) (e : turns st config.processes (main junk mp config).system ts ≡ some sys) where
  -- Whatever turns the CPUs and the loader have taken since `main` started them, in any order: if
  -- `malloc` gives unused blocks and the configuration's priorities are in range, a process that
  -- one CPU has at hand is in memory, in no ready queue, and not at hand of any other CPU.
  pub Has-alone :
      (i j p : ℕ)
      → p ≢ null
      → j ≢ i
      → Has sys i p
      → (live (sys.world.procs p) ≡ 1)
        × (ready_count p sys.world.sched.levels ≡ 0)
        × (¬ Has sys j p)
  Has-alone i j p h other has =
      let safe = turns-IsSafe st junk mp config fresh prios ts sys e in
      let once = safe.once p h in
      let mine = Has-holds sys i p has in
      let in_all = one_held p sys.cpus i has.thread has.there in
      let bound = at_most_one (sys.world.procs p) in
      (
        omega (arith, once, mine, in_all, bound),
        omega (arith, once, mine, in_all, bound),
        λ has'. omega (
          arith,
          once,
          mine,
          bound,
          Has-holds sys j p has',
          two_held p sys.cpus i j has.thread has'.thread (λ same. other (sym same)) has.there
              has'.there,
        ),
      )
    where
      at_most_one : (o : Option Process) → live o ≤ 1
      at_most_one none = omega arith
      at_most_one (some q) = omega arith

  -- Whatever turns the CPUs and the loader have taken since `main` started them, in any order: if
  -- `malloc` gives unused blocks, the configuration's priorities are in range, and it has at most
  -- `MAX_QUEUE_SIZE` processes, every process in memory is in exactly one place, which is one entry
  -- of one ready queue or one CPU's hand, and no other process is in any.
  pub turns_exactly_once :
      (a : ℕ)
      → a ≢ null
      → length config.processes ≤ max_queue_size
      → ready_count a sys.world.sched.levels + held a sys.cpus ≡ live (sys.world.procs a)
  turns_exactly_once a h small =
      let safe = turns-IsSafe st junk mp config fresh prios ts sys e in
      omega (arith, safe.once a h, turns-NoneLost st junk mp config fresh prios ts sys e small a h)
