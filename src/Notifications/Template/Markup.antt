-- ===== src/Notifications/Template/Markup.antt =====
-- The elements that a React component returns, and what a mail client makes of them.
use betti_coaching_calendar.Prelude.{
  ℕ, ◌≡◌, refl, ap, ◌∙◌, sym, Bool, String, str_eq, List, [], ◌∷◌, ◌++◌, append_assoc,
  if◌then◌else◌,
}

-- the declarations of a style; a number is written as its text
abbrev pub Style : Type 0
Style = List (String × String)

pub data Attribute : Type 0 where
  attribute : String → String → Attribute
  style : Style → Attribute

mutual
  pub data Node : Type 0 where
    text : String → Node
    -- `<style>`
    sheet : List ℕ → Node
    element : String → List Attribute → Nodes → Node

  pub data Nodes : Type 0 where
    done : Nodes
    also : Node → Nodes → Nodes

unfoldable pub join : Nodes → Nodes → Nodes
join done ys = ys
join (also x xs) ys = also x (join xs ys)

-- `{condition && (…)}`
abbrev pub shown_if : Bool → Nodes → Nodes
shown_if b nodes = if b then nodes else done

abbrev pub words : String → Nodes
words t = also (text t) done

abbrev pub one : Node → Nodes
one x = also x done

abbrev pub class_name : String → Attribute
class_name name = attribute "className" name

-- the values of an attribute
abbrev pub valued : String → List Attribute → List String
valued name [] = []
valued name (attribute key value ∷ atts) =
    let rest = valued name atts in if str_eq key name then value ∷ rest else rest
valued name (style s ∷ atts) = valued name atts

-- the values that an attribute has in a tree, from the first to the last
unfoldable mutual
  pub values : String → Node → List String
  values name (text t) = []
  values name (sheet css) = []
  values name (element tag atts children) = valued name atts ++ values_in name children

  pub values_in : String → Nodes → List String
  values_in name done = []
  values_in name (also x xs) = values name x ++ values_in name xs

-- the texts of a tree, from the first to the last
unfoldable mutual
  pub texts : Node → List String
  texts (text t) = t ∷ []
  texts (sheet css) = []
  texts (element tag atts children) = texts_in children

  pub texts_in : Nodes → List String
  texts_in done = []
  texts_in (also x xs) = texts x ++ texts_in xs

pub values_in-join :
    (name : String) (xs ys : Nodes)
    → values_in name (join xs ys) ≡ values_in name xs ++ values_in name ys
unfolding join values
values_in-join name done ys = refl
values_in-join name (also x xs) ys =
    ap (λ zs. values name x ++ zs) (values_in-join name xs ys)
    ∙ sym (append_assoc (values name x) (values_in name xs) (values_in name ys))

pub texts_in-join : (xs ys : Nodes) → texts_in (join xs ys) ≡ texts_in xs ++ texts_in ys
unfolding join texts
texts_in-join done ys = refl
texts_in-join (also x xs) ys =
    ap (λ zs. texts x ++ zs) (texts_in-join xs ys)
    ∙ sym (append_assoc (texts x) (texts_in xs) (texts_in ys))
