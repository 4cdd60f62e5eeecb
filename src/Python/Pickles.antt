-- ===== src/Python/Pickles.antt =====
-- How the handles pickle that `open_datatree` of src/lib.rs returns.
use rustytree.Prelude.{ℕ, ◌≡◌, refl, Option, none, some, List, Text}
use mathlib.Core.Option
use mathlib.Core.Option.{get_or}
use rustytree.Error
use rustytree.Error.{Result, PyErr, value_error}
use rustytree.Zarrs.{good, ZarrsArray}
use rustytree.Array.Read.{PyResult, ok, raise, panic, ◌>>=◌}
use rustytree.Node.{NodeData}
use rustytree.Store.{session_bytes}
use rustytree.Store.Handle.{Msgpack, ZarrsArrayHandle, RoundTrips, reduce, into_py}
use rustytree.Walk.Recursive.{Outcome, done}
use rustytree.Url.{StoreSpec}
use rustytree.Python.Object.{PyFields, Platform}
use rustytree.Python.Convert.{nodes_to_pydict}
use rustytree.Python.Handles.{Returns, AllEntries, nodes-AllEntries}
use rustytree.Python.Open.{
  PySource, Arguments, PyOutcome, returned, Crates, to_python, open_session, open_parsed, open_as,
  open_datatree,
}

-- What holds of the dict that Python gets, if it gets one.
abbrev pub Delivers : {V : Type 0} → (PyFields V → Type 0) → PyOutcome V → Type 0
Delivers Q (returned r) = Returns Q r
Delivers Q PyOutcome.out_of_fuel = Unit

abbrev RaisesValueError : {A : Type 0} → PyResult A → Type 0
RaisesValueError (ok a) = ⊥
RaisesValueError (raise e) = Error.PyErr.exception e ≡ value_error
RaisesValueError panic = ⊥

module _ {V : Type 0} (msgpack : Msgpack) where
  -- A handle of a tree that was opened from session bytes pickles to a state that decodes to those
  -- bytes and the path of its array; any other handle refuses.
  abbrev pub Travels : Option (List ℕ) → ZarrsArrayHandle V → Type 0
  Travels (some bytes) h =
      (state : List ℕ) × (reduce msgpack h ≡ ok state)
      × (msgpack.from_slice state ≡ good (session_bytes bytes, h.array.path))
  Travels none h = RaisesValueError (reduce msgpack h)

  made-Travels :
      (as_bytes : Option (List ℕ)) (array : ZarrsArray V)
      → RoundTrips msgpack
      → Travels as_bytes (record { array = array; spec = Option.map session_bytes as_bytes })
  unfolding reduce
  made-Travels (some bytes) array codec =
      let (state, (w, r)) = codec (session_bytes bytes, array.path) in (state, rw w refl, r)
  made-Travels none array codec = refl

  module _ (platform : Platform V) (crates : Crates V) (fuel : ℕ) (codec : RoundTrips msgpack) where
    converted-Travels :
        (as_bytes : Option (List ℕ)) (r : Result (List (NodeData V)))
        → Returns
            (AllEntries (Travels as_bytes))
            (into_py r >>= nodes_to_pydict platform (Option.map session_bytes as_bytes))
    converted-Travels as_bytes (Error.ok nodes) =
        nodes-AllEntries (Travels as_bytes) platform (Option.map session_bytes as_bytes)
          (λ array. made-Travels as_bytes array codec) nodes
    converted-Travels as_bytes (Error.err e) = tt

    to_python-Travels :
        (as_bytes : Option (List ℕ)) (o : Outcome V)
        → Delivers
            (AllEntries (Travels as_bytes))
            (to_python platform crates fuel (Option.map session_bytes as_bytes) o)
    to_python-Travels as_bytes (done r) = converted-Travels as_bytes r
    to_python-Travels as_bytes Outcome.out_of_fuel = tt
    to_python-Travels as_bytes Outcome.panic = tt

    open_parsed-Travels :
        (args : Arguments) (r : PyResult (StoreSpec × List (Text × Text)))
        → Delivers (AllEntries (Travels none)) (open_parsed platform crates fuel args r)
    open_parsed-Travels args (ok (spec, options)) = to_python-Travels none _
    open_parsed-Travels args (raise e) = tt
    open_parsed-Travels args panic = tt

    open_as-Travels :
        (as_bytes : Option (List ℕ)) (as_string : Option Text) (args : Arguments)
        → Delivers
            (AllEntries (Travels as_bytes))
            (open_as platform crates fuel as_bytes as_string args)
    unfolding open_session
    open_as-Travels (some bytes) as_string args = to_python-Travels (some bytes) _
    open_as-Travels none as_string args = open_parsed-Travels args _

    -- With a codec that reads back what it writes; for every source, all arguments and any fuel: if
    -- `open_datatree` returns a dict, then every array handle in it, at any depth, pickles exactly
    -- if the source is session bytes. Its state then decodes to those bytes and the path of the
    -- array; for any other source, pickling the handle raises a `ValueError`.
    pub open_datatree-Travels :
        (source : PySource) (args : Arguments)
        → Delivers
            (AllEntries (Travels source.as_bytes))
            (open_datatree platform crates fuel source args)
    unfolding open_datatree
    open_datatree-Travels source args = open_as-Travels source.as_bytes source.as_string args
