-- ===== src/Parser/Xml.antt =====
-- The XML tree of src/parser.rs: `parse_xml` over the reader's events, and the searches in the tree.
pub mod Tree
pub mod Search
use coverage_mcp.Prelude.{
  ℕ, String, Bool, ◌==◌, str_eq, Option, none, some, List, [], ◌∷◌, ◌++◌, if◌then◌else◌,
}
use coverage_mcp.Order.{text_ord}
use coverage_mcp.BTree
use coverage_mcp.BTree.{BTreeMap}
use coverage_mcp.Error.{AppResult, ok, err, ◌>>=◌, ok_or, fold_result}
use coverage_mcp.Text.{concat}
use coverage_mcp.Text.Split.{rsplit_once}
use coverage_mcp.Parser.{
  Decoded, decoded, failed, XmlAttr, attr, malformed, XmlEvent, start, empty, end_tag, other,
  broken, Decoders, parse_error,
}

mutual
  pub data XmlNode : Type 0 where
    node : String → BTreeMap String String → XmlNodes → XmlNode

  -- the children of a node
  pub data XmlNodes : Type 0 where
    no_nodes : XmlNodes
    child : XmlNode → XmlNodes → XmlNodes

abbrev pub name_of : XmlNode → String
name_of (node name _ _) = name

abbrev pub attrs : XmlNode → BTreeMap String String
attrs (node _ attributes _) = attributes

-- `children.push(node)`
abbrev pub push_child : XmlNodes → XmlNode → XmlNodes
push_child no_nodes n = child n no_nodes
push_child (child m ms) n = child m (push_child ms n)

abbrev pub with_child : XmlNode → XmlNode → XmlNode
with_child (node name attributes children) n = node name attributes (push_child children n)

-- `xml_name`: what stands behind the last `}`
unfoldable pub xml_name : String → String
unfolding rsplit_once
xml_name raw = elim (rsplit_once b'}' raw) [ none ↦ raw | some (_, name) ↦ name ]

-- one attribute of `xml_attrs`
unfoldable pub add_attr : BTreeMap String String → XmlAttr → AppResult (BTreeMap String String)
unfolding xml_name BTree.insert
add_attr attributes (malformed message) = err (parse_error message)
add_attr attributes (attr key (failed message)) = err (parse_error message)
add_attr attributes (attr key (decoded value)) = ok (BTree.insert attributes (xml_name key) value)

unfoldable pub xml_attrs : List XmlAttr → AppResult (BTreeMap String String)
unfolding add_attr fold_result
xml_attrs list = fold_result add_attr [] list

-- the open nodes, the innermost first, and the root that is known so far
pub record Reading : Type 0 where
  pub stack : List XmlNode
  pub root : Option XmlNode

-- `attach_xml_node`
abbrev pub attach_xml_node : List XmlNode → Option XmlNode → XmlNode → Reading
attach_xml_node [] root n = record { stack = []; root = some n }
attach_xml_node (parent ∷ stack) root n = record {
  stack = with_child parent n ∷ stack;
  root = root;
}

-- `append_xml_end`
abbrev pub append_xml_end : List XmlNode → Option XmlNode → Reading
append_xml_end [] root = record { stack = []; root = none }
append_xml_end (n ∷ stack) root = attach_xml_node stack root n

-- one event of `parse_xml`
unfoldable pub read_event : Reading → XmlEvent → AppResult Reading
unfolding xml_attrs xml_name
read_event r (start name list) = do
  attributes ← xml_attrs list
  ok (record r { stack = node (xml_name name) attributes no_nodes ∷ r.stack })
read_event r (empty name list) = do
  attributes ← xml_attrs list
  ok (attach_xml_node r.stack r.root (node (xml_name name) attributes no_nodes))
read_event r end_tag = ok (append_xml_end r.stack r.root)
read_event r other = ok r
read_event r (broken message) = err (parse_error message)

unfoldable pub read_events : List XmlEvent → AppResult Reading
unfolding read_event fold_result
read_events events = fold_result read_event (record { stack = []; root = none }) events

unfoldable pub parse_xml : Decoders → String → List ℕ → AppResult XmlNode
unfolding read_events
parse_xml dec path bytes = do
  r ← read_events (dec.xml_events bytes)
  ok_or r.root (parse_error (concat ("XML report is empty: " ∷ path ∷ [])))

-- `descendants`: every node of this name below `parent`, in the order of the document
unfoldable mutual
  pub descendants : XmlNode → String → List XmlNode
  descendants (node _ _ children) name = descendants_of children name

  pub descendants_of : XmlNodes → String → List XmlNode
  descendants_of no_nodes name = []
  descendants_of (child n ns) name =
      (if str_eq (name_of n) name then n ∷ [] else [])
      ++ (descendants n name ++ descendants_of ns name)

-- `collect_nodes`, with the matches so far
unfoldable mutual
  pub collect_nodes : XmlNode → String → List XmlNode → List XmlNode
  collect_nodes (node tag attributes children) name matches =
      collect_children children name
        (if str_eq tag name then matches ++ node tag attributes children ∷ [] else matches)

  pub collect_children : XmlNodes → String → List XmlNode → List XmlNode
  collect_children no_nodes name matches = matches
  collect_children (child n ns) name matches =
      collect_children ns name (collect_nodes n name matches)

unfoldable pub find_nodes : XmlNode → String → List XmlNode
unfolding collect_nodes
find_nodes n name = collect_nodes n name []
