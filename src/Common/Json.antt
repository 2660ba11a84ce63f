-- ===== src/Common/Json.antt =====
-- A JSON value as JavaScript holds it, where the code looks into one without a type.
use betti_coaching_calendar.Prelude.{
  Bool, true, false, String, str_eq, Option, none, some, if◌then◌else◌,
}

mutual
  pub data Json : Type 0 where
    null : Json
    text : String → Json
    -- a number or a Boolean
    scalar : String → Json
    array : Elements → Json
    object : Members → Json

  pub data Elements : Type 0 where
    no_elements : Elements
    element : Json → Elements → Elements

  pub data Members : Type 0 where
    no_members : Members
    member : String → Json → Members → Members

-- `record[key]` of an object; a key stands once in it
pub lookup : String → Members → Option Json
lookup key no_members = none
lookup key (member k v ms) = if str_eq k key then some v else lookup key ms

-- `record[key]` of a value whose `typeof` is 'object' and which is not null; an array has none of
-- the names that the code asks for
unfoldable pub property : String → Json → Option Json
unfolding lookup
property key (object ms) = lookup key ms
property key _ = none

-- `typeof value === 'object' && value !== null`
abbrev pub is_object : Json → Bool
is_object (array es) = true
is_object (object ms) = true
is_object _ = false
