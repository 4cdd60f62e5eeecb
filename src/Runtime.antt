-- ===== src/Runtime.antt =====
-- The tokio runtime of the process, `RUNTIME` and `handle` of src/runtime.rs.
use rustytree.Prelude.{ℕ, zero, suc, ◌≡◌, refl, Option, none, some, List, [], ◌∷◌, All}
use rustytree.Zarrs.{Fallible, good, bad}

-- `Builder::build`, which asks the system for threads, so that it may fail now and succeed later.
record TokioBuilder : Type 1 where
  System : Type 0
  Runtime : Type 0
  build : System → Fallible Runtime × System

-- What a call of `handle` comes to.
data Handle (Runtime : Type 0) : Type 0 where
  runtime : Runtime → Handle Runtime
  panic : Handle Runtime

module _ (builder : TokioBuilder) where
  -- The cell `RUNTIME`, and the system.
  record Process : Type 0 where
    cell : Option builder.Runtime
    system : builder.System

  -- `expect`: if the closure panics, the cell stays empty.
  abbrev initialised : Fallible builder.Runtime × builder.System → Handle builder.Runtime × Process
  initialised (good r, system) = (runtime r, record { cell = some r; system = system })
  initialised (bad e, system) = (panic, record { cell = none; system = system })

  -- `get_or_init`, by what the cell holds.
  abbrev get_or_init : Option builder.Runtime → builder.System → Handle builder.Runtime × Process
  get_or_init (some r) system = (runtime r, record { cell = some r; system = system })
  get_or_init none system = initialised (builder.build system)

  unfoldable handle : Process → Handle builder.Runtime × Process
  handle process = get_or_init process.cell process.system

  -- The results of so many calls.
  unfoldable handles : ℕ → Process → List (Handle builder.Runtime)
  handles zero process = []
  handles (suc n) process = let (h, next) = handle process in h ∷ handles n next

  -- Some calls that panic, and then the same runtime each time.
  abbrev Settles : List (Handle builder.Runtime) → Type 0
  Settles [] = Unit
  Settles (panic ∷ hs) = Settles hs
  Settles (runtime r ∷ hs) = All (λ h. h ≡ runtime r) hs

  handles-some :
      (n : ℕ) (r : builder.Runtime) (system : builder.System)
      → All (λ h. h ≡ runtime r) (handles n (record { cell = some r; system = system }))
  unfolding handles handle
  handles-some zero r system = tt
  handles-some (suc n) r system = (refl, handles-some n r system)

  -- For every builder, whenever it fails, and any number of calls in a row, with the cell empty or
  -- not at the start: after the first call that returns a runtime, each call returns that very
  -- runtime and none panics.
  handles-Settles : (n : ℕ) (process : Process) → Settles (handles n process)
  unfolding handles handle
  handles-Settles zero process = tt
  handles-Settles (suc n) process =
      by_cell process.cell process.system (λ next. handles-Settles n next)
    where
      by_built :
          (b : Fallible builder.Runtime × builder.System)
          → ((next : Process) → Settles (handles n next))
          → Settles (let (h, next) = initialised b in h ∷ handles n next)
      by_built (good r, system) later = handles-some n r system
      by_built (bad e, system) later = later (record { cell = none; system = system })

      by_cell :
          (cell : Option builder.Runtime) (system : builder.System)
          → ((next : Process) → Settles (handles n next))
          → Settles (let (h, next) = get_or_init cell system in h ∷ handles n next)
      by_cell (some r) system later = handles-some n r system
      by_cell none system later = by_built (builder.build system) later
