-- ===== src/Walk/Discover/Permits.antt =====
-- The permits of `discover_paths` in src/walk.rs, as a step relation. A call waits for a permit,
-- holds it while it opens its group and lists the child groups, drops it, and then joins the calls
-- on the children. The first number of a state is the count of free permits.
pub mod Progress
mod Tests
use rustytree.Prelude.{ℕ, zero, suc, ◌+◌, ◌*◌, ◌-◌, ◌≡◌, Text}
use rustytree.Walk.Discover.Spec.{Tree, node, Forest, nil, cons}

mutual
  -- A call of `discover_paths` on a tree of groups.
  pub data Call : Type 0 where
    waiting : Tree → Call
    holding : Tree → Call
    joining : Calls → Call
    finished : Call

  pub data Calls : Type 0 where
    no_calls : Calls
    also : Call → Calls → Calls

-- The calls on the child groups.
abbrev pub spawn : Forest → Calls
spawn nil = no_calls
spawn (cons t f) = also (waiting t) (spawn f)

abbrev pub AllFinished : Calls → Type 0
AllFinished no_calls = Unit
AllFinished (also c cs) = (c ≡ finished) × AllFinished cs

mutual
  pub data Step : ℕ → Call → ℕ → Call → Type 0 where
    acquire : {free : ℕ} {t : Tree} → Step (suc free) (waiting t) free (holding t)
    release :
        {free : ℕ} {path : Text} {f : Forest}
        → Step free (holding (node path f)) (suc free) (joining (spawn f))
    join : {free : ℕ} {cs : Calls} → AllFinished cs → Step free (joining cs) free finished
    inside :
        {free free' : ℕ} {cs cs' : Calls}
        → StepOne free cs free' cs'
        → Step free (joining cs) free' (joining cs')

  -- One of the joined calls makes a step.
  pub data StepOne : ℕ → Calls → ℕ → Calls → Type 0 where
    first :
        {free free' : ℕ} {c c' : Call} {cs : Calls}
        → Step free c free' c'
        → StepOne free (also c cs) free' (also c' cs)
    later :
        {free free' : ℕ} {c : Call} {cs cs' : Calls}
        → StepOne free cs free' cs'
        → StepOne free (also c cs) free' (also c cs')

-- The steps from one state to another.
pub data Run : ℕ → Call → ℕ → Call → Type 0 where
  stay : {free : ℕ} {c : Call} → Run free c free c
  move :
      {free free' free'' : ℕ} {c c' c'' : Call}
      → Step free c free' c'
      → Run free' c' free'' c''
      → Run free c free'' c''

unfoldable pub run_length : {free free' : ℕ} {c c' : Call} → Run free c free' c' → ℕ
run_length stay = 0
run_length (move s r) = suc (run_length r)

-- The permits that are held.
unfoldable mutual
  pub held : Call → ℕ
  held (waiting t) = 0
  held (holding t) = 1
  held (joining cs) = held_each cs
  held finished = 0

  pub held_each : Calls → ℕ
  held_each no_calls = 0
  held_each (also c cs) = held c + held_each cs

-- The steps that are left: three for each group.
unfoldable mutual
  pub size : Tree → ℕ
  size (node path f) = suc (size_each f)

  pub size_each : Forest → ℕ
  size_each nil = 0
  size_each (cons t f) = size t + size_each f

unfoldable mutual
  pub left : Call → ℕ
  left (waiting t) = 3 * size t
  left (holding t) = 3 * size t - 1
  left (joining cs) = suc (left_each cs)
  left finished = 0

  pub left_each : Calls → ℕ
  left_each no_calls = 0
  left_each (also c cs) = left c + left_each cs
