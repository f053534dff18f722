-- ===== src/Parser/Xml/Search.antt =====
-- The two searches of src/parser.rs find the same nodes.
use coverage_mcp.Prelude.{
  String, ◌≡◌, sym, ◌∙◌, str_eq, List, [], ◌∷◌, ◌++◌, if◌then◌else◌, Bool-cases, inl, inr,
}
use mathlib.Core.List.{append-nil, append_assoc}
use coverage_mcp.Parser.Xml.{
  XmlNode, XmlNodes, node, no_nodes, child, name_of, descendants, descendants_of, collect_nodes,
  collect_children, find_nodes,
}

-- the node itself, if it has the name
abbrev pub itself : XmlNode → String → List XmlNode
itself n name = if str_eq (name_of n) name then n ∷ [] else []

mutual
  unfolding descendants collect_nodes

  collect_nodes_lem :
      (n : XmlNode) (name : String) (before : List XmlNode)
      → collect_nodes n name before ≡ before ++ (itself n name ++ descendants n name)
  collect_nodes_lem (node tag attributes children) name before =
      elim (Bool-cases (str_eq tag name)) [
        | inl named ↦ rw named (
            collect_children_lem children name (before ++ node tag attributes children ∷ [])
            ∙ append_assoc before (node tag attributes children ∷ [])
                (descendants_of children name))
        | inr other ↦ rw other (collect_children_lem children name before)
      ]

  collect_children_lem :
      (ns : XmlNodes) (name : String) (before : List XmlNode)
      → collect_children ns name before ≡ before ++ descendants_of ns name
  collect_children_lem no_nodes name before = sym (append-nil before)
  collect_children_lem (child n ns) name before = rw (collect_nodes_lem n name before) (
      collect_children_lem ns name (before ++ (itself n name ++ descendants n name))
      ∙ simp append_assoc)

-- find_nodes gives the node itself, if it has the name, and then what descendants gives, for every
-- tree.
pub find_nodes-descendants :
    (n : XmlNode) (name : String)
    → find_nodes n name ≡ (if str_eq (name_of n) name then n ∷ [] else []) ++ descendants n name
unfolding find_nodes
find_nodes-descendants n name = collect_nodes_lem n name []
