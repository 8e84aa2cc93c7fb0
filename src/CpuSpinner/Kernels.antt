-- ===== src/CpuSpinner/Kernels.antt =====
-- cpu_kernels.h, and what a worker of cpu_spinner.c does with a kernel over its life. A vector of doubles and
-- the multiplication and addition of vectors are the machine's.
use psplay.Base.{
  ℕ, zero, suc, ◌+◌, ◌≤◌, ◌≡◌, refl, arith, if◌then◌else◌, Option, none, some, ◌>>=◌, List, length,
  get_elem?, get_elem?-eq-get_or, get_or, ◌⊎◌, inl, inr, Option-cases,
}
use psplay.Base.Int.{ℤ, pos, negsuc, ltb_ℤ}

-- CPU_KERNEL_AVX2_ARR_SIZE
abbrev pub cpu_kernel_avx2_arr_size : ℕ
cpu_kernel_avx2_arr_size = 128

-- What `*args` points to: nothing, an array, or one that has been given back.
pub data Pointer (V : Type 0) : Type 0 where
  null freed : Pointer V
  array : List V → Pointer V

-- The variables of `kernel_avx2_body`, which nothing sets first; a name of one letter stands for itself.
pub record Registers (V : Type 0) : Type 0 where
  pub a : V
  pub b : V
  pub c : V
  pub d : V
  pub e : V
  pub f : V
  pub g : V
  pub h : V
  pub q : V

-- sizeof(__m256d)
abbrev pub vector_size : ℕ
vector_size = 32

-- `calloc`, for so many elements of a size.
abbrev pub Calloc : Type 0 → Type 0
Calloc V = ℕ → ℕ → Option (List V)

-- `kernel_t`. `calloc` is an argument of `setup`; `none` is an access through a pointer
-- that points to nothing, or beyond the array.
pub record Kernel (V : Type 0) : Type 0 where
  pub setup : Calloc V → Pointer V → ℤ × Pointer V
  pub body : Pointer V → Registers V → Option (Registers V)
  pub teardown : Pointer V → Option (Pointer V)

-- How a worker ends: with EXIT_FAILURE, or by a fault, or behind `teardown`.
pub data Life (V : Type 0) : Type 0 where
  exited crashed : Life V
  returned : Pointer V → Life V

module _ {V : Type 0} where
  -- `return (*args == NULL) ? -1 : 0;`
  abbrev pub setup_result : Option (List V) → ℤ × Pointer V
  setup_result none = (negsuc 0, null)
  setup_result (some x) = (pos 0, array x)

  abbrev pub kernel_avx2_setup : Calloc V → Pointer V → ℤ × Pointer V
  kernel_avx2_setup calloc args = setup_result (calloc cpu_kernel_avx2_arr_size vector_size)

  -- `free`
  abbrev pub kernel_avx2_teardown : Pointer V → Option (Pointer V)
  kernel_avx2_teardown null = some null
  kernel_avx2_teardown freed = none
  kernel_avx2_teardown (array x) = some freed

  module _ (fmadd : V → V → V → V) where
    -- A round of the loop, on the element `t`.
    abbrev pub fmadd_all : V → Registers V → Registers V
    fmadd_all t r = record r {
      a = fmadd r.a r.q t;
      b = fmadd r.b r.q t;
      c = fmadd r.c r.q t;
      d = fmadd r.d r.q t;
      e = fmadd r.e r.q t;
      f = fmadd r.f r.q t;
      g = fmadd r.g r.q t;
      h = fmadd r.h r.q t;
    }

    -- The loop, with `left` elements to go from `i` on.
    pub avx2_loop : ℕ → ℕ → List V → Registers V → Option (Registers V)
    avx2_loop zero i x r = some r
    avx2_loop (suc left) i x r = get_elem? x i >>= λ t. avx2_loop left (i + 1) x (fmadd_all t r)

    abbrev pub kernel_avx2_body : Pointer V → Registers V → Option (Registers V)
    kernel_avx2_body null r = none
    kernel_avx2_body freed r = none
    kernel_avx2_body (array x) r = avx2_loop cpu_kernel_avx2_arr_size 0 x r

    abbrev pub kernel_avx2 : Kernel V
    kernel_avx2 = record {
      setup = kernel_avx2_setup;
      body = kernel_avx2_body;
      teardown = kernel_avx2_teardown;
    }

  abbrev pub kernel_nop : Kernel V
  kernel_nop = record {
    setup = λ calloc args. (pos 0, args);
    body = λ args r. some r;
    teardown = λ args. some args;
  }

  module _ (k : Kernel V) where
    -- The calls of `body`, so many as the core is busy for.
    pub bodies : ℕ → Pointer V → Registers V → Option (Registers V)
    bodies zero args r = some r
    bodies (suc n) args r = k.body args r >>= λ r'. bodies n args r'

    abbrev pub torn_down : Option (Pointer V) → Life V
    torn_down none = crashed
    torn_down (some args) = returned args

    abbrev pub behind_setup : ℕ → Registers V → ℤ × Pointer V → Life V
    behind_setup n r (ret, args) =
        if ltb_ℤ ret (pos 0) then exited else torn_down (bodies n args r >>= λ r'. k.teardown args)

    -- The kernel's part in `worker`.
    pub live : ℕ → Calloc V → Registers V → Life V
    live n calloc r = behind_setup n r (k.setup calloc null)

  bodies-nop :
      (n : ℕ) (r : Registers V) → (r' : Registers V) × (bodies kernel_nop n null r ≡ some r')
  unfolding bodies
  bodies-nop zero r = (r, refl)
  bodies-nop (suc n) r = bodies-nop n r

  module _ (fmadd : V → V → V → V) where
    avx2_loop-bounded :
        (left i : ℕ) (x : List V) (r : Registers V)
        → i + left ≤ length x
        → (r' : Registers V) × (avx2_loop fmadd left i x r ≡ some r')
    unfolding avx2_loop
    avx2_loop-bounded zero i x r h = (r, refl)
    avx2_loop-bounded (suc left) i x r h =
        let at = get_elem?-eq-get_or x i r.q (omega arith) in
        let (r', runs) =
          avx2_loop-bounded left (i + 1) x (fmadd_all fmadd (get_or x i r.q) r) (omega arith) in
        (r', rw at runs)

    bodies-bounded :
        (n : ℕ) (x : List V) (r : Registers V)
        → length x ≡ cpu_kernel_avx2_arr_size
        → (r' : Registers V) × (bodies (kernel_avx2 fmadd) n (array x) r ≡ some r')
    unfolding bodies
    bodies-bounded zero x r l = (r, refl)
    bodies-bounded (suc n) x r l =
        let (r1, runs) = avx2_loop-bounded cpu_kernel_avx2_arr_size 0 x r (omega arith) in
        let (r', rest) = bodies-bounded n x r1 l in (r', rw runs rest)

    -- What `calloc` gives has as many vectors as were asked for.
    abbrev pub Allocates : Calloc V → Type 0
    Allocates calloc =
        (count : ℕ) (x : List V) → calloc count vector_size ≡ some x → length x ≡ count

    -- Where an array that `calloc` gives has as many vectors as were asked for: a worker with the AVX2
    -- kernel stays within its array for as many rounds as it runs, and has given it back when it returns;
    -- or `calloc` gives none, and the process ends before the first round.
    pub live-avx2 :
        (n : ℕ) (calloc : Calloc V) (r : Registers V)
        → Allocates calloc
        → (live (kernel_avx2 fmadd) n calloc r ≡ returned freed)
          ⊎ ((calloc cpu_kernel_avx2_arr_size vector_size ≡ none)
              × (live (kernel_avx2 fmadd) n calloc r ≡ exited))
    unfolding live
    live-avx2 n calloc r gives = elim (Option-cases (calloc cpu_kernel_avx2_arr_size vector_size)) [
      | inl refuses ↦ inr (refuses, rw refuses refl)
      | inr (x, there) ↦
          let (r', runs) = bodies-bounded n x r (gives cpu_kernel_avx2_arr_size x there) in
          inl (rw (there, runs) refl)
    ]

  -- A worker with the empty kernel returns whatever `calloc` does.
  live-nop :
      (n : ℕ) (calloc : Calloc V) (r : Registers V) → live kernel_nop n calloc r ≡ returned null
  unfolding live
  live-nop n calloc r = let (r', runs) = bodies-nop n r in rw runs refl
