-- ===== src/Fm/Aliasing/Calls.antt =====
-- A history of the VNET registry of src/FM/pkg/registry/vnet/vnet.go and its client against the
-- calls in it.
use dash_fabric.Base.{◌≡◌, refl, ◌∙◌, List, [], ◌∷◌, ◌++◌, Option, none, some, Bytes, arith}
use dash_fabric.Fm.Registry
use dash_fabric.Fm.Typed
use dash_fabric.Fm.Typed.{TypedRegistry, Call, acquires, releases, adds, run}
use dash_fabric.Fm.Typed.Laws.{run-onward}
use dash_fabric.Fm.Kinds.Vnet
use dash_fabric.Fm.Kinds.Vnet.{VnetState, vnet_kind}
use dash_fabric.Fm.Aliasing
use dash_fabric.Fm.Aliasing.{
  read, deref, get, add, World, new_world, Step, write_object, write_array, make_object, make_array,
  gets, Reach, here, onward,
}
use dash_fabric.Fm.Aliasing.Client.{
  object_written, object_written-Keeps, object_written-IsBounded, array_written,
  array_written-Keeps, array_written-IsBounded, object_made, object_made-Keeps,
  object_made-IsBounded, array_made, array_made-Keeps, array_made-IsBounded,
}
use dash_fabric.Fm.Aliasing.Laws.{states, memory, IsSeparate, validated-IsCall}
use dash_fabric.Fm.Aliasing.Isolation.{quiet, acquire-IsCall, release-IsCall, get-IsQuiet, get-read}

-- The call that a step makes, if it changes the registry.
abbrev pub call_of : {w v : World} → Step w v → Option (Call VnetState)
call_of (write_object p o held slice) = none
call_of (write_array a xs held) = none
call_of (make_object o slice) = none
call_of (make_array xs) = none
call_of {w = w} (Aliasing.adds p st held e) = some (adds (read w.store.heap (some p)))
call_of (gets k q e) = none
call_of (Aliasing.acquires k) = some (acquires k)
call_of (Aliasing.releases k) = some (releases k)

abbrev pub then_call : List (Call VnetState) → Option (Call VnetState) → List (Call VnetState)
then_call cs none = cs
then_call cs (some c) = cs ++ c ∷ []

abbrev pub calls : {w v : World} → Reach w v → List (Call VnetState)
calls here = []
calls (onward r s) = then_call (calls r) (call_of s)

abbrev performed :
    TypedRegistry VnetState → Option (Call VnetState) → Option (TypedRegistry VnetState)
performed r none = some r
performed r (some c) = Typed.step vnet_kind r c

abbrev Sep : World → Type 0
Sep w = IsSeparate (memory w) w.store.inner

step-performed :
    {w v : World}
    → Sep w
    → (s : Step w v) → Sep v × (performed (states w.store) (call_of s) ≡ some (states v.store))
unfolding add
step-performed {w = w} sep (write_object p o held slice) =
    quiet (memory w) w.store.inner sep (object_written (memory w) sep.bounded p o)
      (object_written-Keeps (memory w) sep.bounded p o held)
      (object_written-IsBounded (memory w) sep.bounded p o)
step-performed {w = w} sep (write_array a xs held) =
    quiet (memory w) w.store.inner sep (array_written (memory w) sep.bounded a xs)
      (array_written-Keeps (memory w) sep.bounded a xs held)
      (array_written-IsBounded (memory w) sep.bounded a xs)
step-performed {w = w} sep (make_object o slice) =
    quiet (memory w) w.store.inner sep (object_made (memory w) sep.bounded o)
      (object_made-Keeps (memory w) sep.bounded o) (object_made-IsBounded (memory w) sep.bounded o)
step-performed {w = w} sep (make_array xs) =
    quiet (memory w) w.store.inner sep (array_made (memory w) sep.bounded xs)
      (array_made-Keeps (memory w) sep.bounded xs) (array_made-IsBounded (memory w) sep.bounded xs)
step-performed {w = w} sep (Aliasing.adds p st held e) =
    validated-IsCall w.holds_object w.holds_array w.store (deref w.store.heap (some p)) st sep e
step-performed {w = w} sep (gets k q e) = get-IsQuiet w.holds_object w.holds_array w.store k q sep e
step-performed {w = w} sep (Aliasing.acquires k) =
    acquire-IsCall w.holds_object w.holds_array w.store k sep
step-performed {w = w} sep (Aliasing.releases k) =
    release-IsCall w.holds_object w.holds_array w.store k sep

run-then_call :
    (r : TypedRegistry VnetState) (cs : List (Call VnetState)) (c : Option (Call VnetState))
    {r' r'' : TypedRegistry VnetState}
    → run vnet_kind r cs ≡ some r'
    → performed r' c ≡ some r''
    → run vnet_kind r (then_call cs c) ≡ some r''
run-then_call r cs none h e = h ∙ e
run-then_call r cs (some c) {r' = r'} {r'' = r''} h e =
    run-onward vnet_kind r cs c {r' = r'} {r'' = r''} h e

new-Sep : Sep new_world
unfolding Registry.new
new-Sep = record {
  bounded = record {
    objects_lt = λ p held. absurd (ground arith);
    arrays_lt = λ a held. absurd (ground arith);
  };
  private = tt;
}

reached :
    {w : World} (r : Reach new_world w)
    → Sep w × (run vnet_kind Vnet.new (calls r) ≡ some (states w.store))
unfolding run Registry.new
reached here = (new-Sep, refl)
reached (onward r s) =
    let (sep, ran) = reached r in
    let (sep', done) = step-performed sep s in
    (sep', run-then_call Vnet.new (calls r) (call_of s) ran done)

-- After any steps of a new VNET registry and its client, which writes at will to what it made, also
-- once it was passed to Add, and to what Get handed it: the states that the stored pointers lead to
-- are those of the registry over values after the calls of Acquire, Release and Add in these steps,
-- each Add being of the state that its pointer then led to; and what Get returns for any key leads
-- to the state, if any, that the registry over values returns for it.
pub Reach-run :
    {w : World} (r : Reach new_world w) (k : Bytes)
    → (run vnet_kind Vnet.new (calls r) ≡ some (states w.store))
      × (read (get w.store k).0.heap (get w.store k).1 ≡ (Typed.get (states w.store) k).0)
Reach-run {w = w} r k = ((reached r).1, get-read w.store k)
