-- ===== src/Gc/Heap.antt =====
-- What the collector sees of the heap (src/runtime/objects and the upper half of
-- src/gc/CycleCollector.cpp): the values that an object visits, the objects that a value refers to,
-- and what clearing an object leaves. An object has an address; its tag is its constructor, and a
-- null pointer to an object is a scalar. Locks are left out.
use ez_language.Prelude.{ℕ, Option, none, some, List, [], ◌∷◌, ◌++◌, map}
use mathlib.Core.List.{flatten}

-- A value: without a pointer, with the address of an object, or a bound method, whose two halves
-- are read through its pointer.
pub data Value : Type 0 where
  scalar : Value
  pointer : ℕ → Value
  bound_method : Value → Value → Value

-- `UpvalueObj`: what `location` points to, unless it is null, and `closed`.
pub record Upvalue : Type 0 where
  pub location : Option Value
  pub closed : Value

pub record ClassBody : Type 0 where
  pub parent : Option ℕ
  pub methods : List Value
  pub static_members : List Value
  pub validators : List Value

pub record InstanceBody : Type 0 where
  pub klass : Option ℕ
  pub property_values : List Value
  pub audit_log : List (Value × Value)
  pub cache_store : List Value

pub data Object : Type 0 where
  array tuple dictionary : List Value → Object
  instance_of : InstanceBody → Object
  class_of : ClassBody → Object
  function other : Object
  closure : List (Option Upvalue) → Object
  method_of concat_string : Value → Value → Object

abbrev pub Heap : Type 0
Heap = ℕ → Object

abbrev pointed : Option ℕ → List Value
pointed none = []
pointed (some a) = pointer a ∷ []

unfoldable pub audit_values : List (Value × Value) → List Value
audit_values [] = []
audit_values ((old_value, new_value) ∷ log) = old_value ∷ new_value ∷ audit_values log

-- `EZClosure::traverse`: the current location of each upvalue.
unfoldable pub upvalue_values : List (Option Upvalue) → List Value
upvalue_values [] = []
upvalue_values (none ∷ us) = upvalue_values us
upvalue_values (some u ∷ us) = elim u.location [ none ↦ u.closed | some v ↦ v ] ∷ upvalue_values us

-- `traverseObject`: the values visited, in order.
unfoldable pub traverse_object : Object → List Value
unfolding audit_values upvalue_values
traverse_object (array elements) = elements
traverse_object (tuple elements) = elements
traverse_object (dictionary values) = values
traverse_object (instance_of i) =
    pointed i.klass ++ (i.property_values ++ (audit_values i.audit_log ++ i.cache_store))
traverse_object (class_of c) = pointed c.parent ++ (c.methods ++ (c.static_members ++ c.validators))
traverse_object function = []
traverse_object other = []
traverse_object (closure upvalues) = upvalue_values upvalues
traverse_object (method_of receiver method) = receiver ∷ method ∷ []
traverse_object (concat_string left right) = left ∷ right ∷ []

-- `forEachReferencedPtr`: a bound method stands for its two halves.
unfoldable pub referenced : Value → List ℕ
referenced scalar = []
referenced (pointer a) = a ∷ []
referenced (bound_method receiver method) = referenced receiver ++ referenced method

-- All the addresses that a visit of the object reports.
unfoldable pub object_refs : Object → List ℕ
unfolding traverse_object referenced
object_refs o = flatten (map referenced (traverse_object o))

-- `clearObject`
unfoldable pub clear_object : Object → Object
clear_object (array elements) = array []
clear_object (tuple elements) = tuple []
clear_object (dictionary values) = dictionary []
clear_object (instance_of i) =
    instance_of (record { klass = none; property_values = []; audit_log = []; cache_store = [] })
clear_object (class_of c) = class_of (record {
  parent = none;
  methods = [];
  static_members = [];
  validators = map (λ v. scalar) c.validators;
})
clear_object function = function
clear_object other = other
clear_object (closure upvalues) = closure []
clear_object (method_of receiver method) = method_of scalar scalar
clear_object (concat_string left right) = concat_string scalar scalar
