-- ===== src/Parser/Xml/Tree.antt =====
-- The stack of `parse_xml` in src/parser.rs builds the tree that a recursive reading of the document
-- gives, with the same errors.
use coverage_mcp.Prelude.{
  ℕ, zero, suc, String, ◌≡◌, refl, ap, ◌∙◌, Option, none, some, List, [], ◌∷◌, inl, inr,
}
use coverage_mcp.Error.{AppResult, ok, ◌>>=◌, fold_result, AppResult-cases}
use coverage_mcp.Parser.{XmlAttr, XmlEvent, start, empty, end_tag, other, Decoders}
use coverage_mcp.Parser.Xml.{
  XmlNode, XmlNodes, node, no_nodes, child, push_child, xml_name, xml_attrs, Reading,
  attach_xml_node, read_event, read_events, parse_xml,
}

-- An element of a document with its tag as it is written, and what stands between its tags.
mutual
  pub data Element : Type 0 where
    closed : String → List XmlAttr → Element
    element : String → List XmlAttr → Content → Element

  pub data Content : Type 0 where
    nothing : Content
    text_then : Content → Content
    element_then : Element → Content → Content

-- what the reader reports of it, in front of what follows
unfoldable mutual
  pub events : Element → List XmlEvent → List XmlEvent
  events (closed raw list) rest = empty raw list ∷ rest
  events (element raw list content) rest = start raw list ∷ content_events content (end_tag ∷ rest)

  pub content_events : Content → List XmlEvent → List XmlEvent
  content_events nothing rest = rest
  content_events (text_then content) rest = other ∷ content_events content rest
  content_events (element_then e content) rest = events e (content_events content rest)

-- The node that an element stands for, or the first error among the attributes.
unfoldable mutual
  pub tree : Element → AppResult XmlNode
  tree (closed raw list) =
      xml_attrs list >>= λ attributes. ok (node (xml_name raw) attributes no_nodes)
  tree (element raw list content) = xml_attrs list >>= λ attributes.
      trees content >>= λ children. ok (node (xml_name raw) attributes children)

  pub trees : Content → AppResult XmlNodes
  trees nothing = ok no_nodes
  trees (text_then content) = trees content
  trees (element_then e content) = tree e >>= λ n. trees content >>= λ ns. ok (child n ns)

abbrev reading : Reading → List XmlEvent → AppResult Reading
reading = fold_result read_event

-- with more children behind the ones that are known
append_nodes : XmlNodes → XmlNodes → XmlNodes
append_nodes no_nodes ns = ns
append_nodes (child m ms) ns = child m (append_nodes ms ns)

append_nodes-push_child :
    (ms : XmlNodes) (n : XmlNode) (ns : XmlNodes)
    → append_nodes (push_child ms n) ns ≡ append_nodes ms (child n ns)
unfolding append_nodes
append_nodes-push_child no_nodes n ns = refl
append_nodes-push_child (child m ms) n ns = ap (child m) (append_nodes-push_child ms n ns)

append_nodes-no_nodes : (ms : XmlNodes) → append_nodes ms no_nodes ≡ ms
unfolding append_nodes
append_nodes-no_nodes no_nodes = refl
append_nodes-no_nodes (child m ms) = ap (child m) (append_nodes-no_nodes ms)

mutual
  unfolding events tree append_nodes fold_result read_event

  reading-events :
      (e : Element) (stack : List XmlNode) (root : Option XmlNode) (rest : List XmlEvent)
      → reading (record { stack = stack; root = root }) (events e rest)
        ≡ (tree e >>= λ n. reading (attach_xml_node stack root n) rest)
  reading-events (closed raw list) stack root rest = elim (AppResult-cases (xml_attrs list)) [
    | inl (attributes, known) ↦ rw known refl
    | inr (e, known) ↦ rw known refl
  ]
  reading-events (element raw list content) stack root rest =
      elim (AppResult-cases (xml_attrs list)) [
        | inl (attributes, known) ↦ rw known (
            reading-content content (xml_name raw) attributes no_nodes stack root (end_tag ∷ rest)
            ∙ elim (AppResult-cases (trees content)) [
              | inl (ns, read) ↦ rw read refl
              | inr (e, read) ↦ rw read refl
            ])
        | inr (e, known) ↦ rw known refl
      ]

  reading-content :
      (content : Content) (name : String) (attributes : List (String × String)) (before : XmlNodes)
      (stack : List XmlNode) (root : Option XmlNode) (rest : List XmlEvent)
      → reading
          (record { stack = node name attributes before ∷ stack; root = root })
          (content_events content rest)
        ≡ (trees content >>= λ ns.
            reading
              (record {
                stack = node name attributes (append_nodes before ns) ∷ stack;
                root = root;
              })
              rest)
  reading-content nothing name attributes before stack root rest =
      rw (append_nodes-no_nodes before) refl
  reading-content (text_then content) name attributes before stack root rest =
      reading-content content name attributes before stack root rest
  reading-content (element_then e content) name attributes before stack root rest =
      reading-events e (node name attributes before ∷ stack) root (content_events content rest)
      ∙ elim (AppResult-cases (tree e)) [
        | inl (n, known) ↦ rw known (
            reading-content content name attributes (push_child before n) stack root rest
            ∙ elim (AppResult-cases (trees content)) [
              | inl (ns, read) ↦ rw (read, append_nodes-push_child before n ns) refl
              | inr (e', read) ↦ rw read refl
            ])
        | inr (e', known) ↦ rw known refl
      ]

-- comments and the like before or behind the element
abbrev pub others : ℕ → List XmlEvent → List XmlEvent
others zero rest = rest
others (suc n) rest = other ∷ others n rest

reading-others :
    (n : ℕ) (r : Reading) (rest : List XmlEvent) → reading r (others n rest) ≡ reading r rest
unfolding fold_result read_event
reading-others zero r rest = refl
reading-others (suc n) r rest = reading-others n r rest

-- For the events of one element, with comments and the like before, within and behind it: the
-- stack of parse_xml gives the node that a recursive reading of the element gives, children in
-- their order, or the same error for the first attribute that cannot be decoded.
pub parse_xml-tree :
    (dec : Decoders) (path : String) (bytes : List ℕ) (e : Element) (before behind : ℕ)
    → dec.xml_events bytes ≡ others before (events e (others behind []))
    → parse_xml dec path bytes ≡ tree e
unfolding parse_xml read_events
parse_xml-tree dec path bytes e before behind read =
    rw
      (
        read,
        reading-others before (record { stack = []; root = none }) _,
        reading-events e [] none (others behind []),
      )
      (elim (AppResult-cases (tree e)) [
        | inl (n, known) ↦
            rw (known, reading-others behind (record { stack = []; root = some n }) [], fold_result)
              refl
        | inr (failure, known) ↦ rw known refl
      ])
