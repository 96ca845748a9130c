-- ===== src/Xml/Defs.antt =====
-- src/shared/xml-message.cpp: XMLBuildMessage, XMLReadMessage, XMLSetUsernameToMessage,
-- XMLBuildUpdate and XMLReadUpdate. TinyXML's parser and printer are a parameter; its documents are
-- the nodes that the program builds and walks. A `const char*` argument is the bytes before its
-- zero, and is not NULL, except for the name of XMLBuildMessage.
use project_secure_chat.Base.{ℕ, Option, none, some, List, [], ◌∷◌, if◌then◌else◌}
use project_secure_chat.Base.Result.{Result, ok, ◌>>=◌}
use project_secure_chat.Buffer.Defs.{bytes_eq}
use project_secure_chat.Buffer.Text.{before_zero}
use project_secure_chat.Base64.Defs.{encode_base64, decode_base64}

mutual
  pub data Node : Type 0 where
    declaration : Node
    text : List ℕ → Node
    element : List ℕ → List (List ℕ × List ℕ) → Nodes → Node

  pub data Nodes : Type 0 where
    nil : Nodes
    cons : Node → Nodes → Nodes

pub record TinyXml : Type 0 where
  pub parse : List ℕ → Nodes
  pub print : Nodes → List ℕ

abbrev pub tag_name : List ℕ
tag_name = b'n' ∷ b'a' ∷ b'm' ∷ b'e' ∷ []

abbrev pub tag_content : List ℕ
tag_content = b'c' ∷ b'o' ∷ b'n' ∷ b't' ∷ b'e' ∷ b'n' ∷ b't' ∷ []

abbrev pub tag_message : List ℕ
tag_message = b'm' ∷ b'e' ∷ b's' ∷ b's' ∷ b'a' ∷ b'g' ∷ b'e' ∷ []

abbrev pub tag_update : List ℕ
tag_update = b'u' ∷ b'p' ∷ b'd' ∷ b'a' ∷ b't' ∷ b'e' ∷ []

abbrev pub attribute_status : List ℕ
attribute_status = b's' ∷ b't' ∷ b'a' ∷ b't' ∷ b'u' ∷ b's' ∷ []

-- The document that XMLBuildMessage prints, of texts that are encoded already.
unfoldable pub message_doc : Option (List ℕ) → List ℕ → Nodes
message_doc none content =
    let body = element tag_content [] (cons (text content) nil) in
    cons declaration (cons (element tag_message [] (cons body nil)) nil)
message_doc (some name) content =
    let head = element tag_name [] (cons (text name) nil) in
    let body = element tag_content [] (cons (text content) nil) in
    cons declaration (cons (element tag_message [] (cons head (cons body nil))) nil)

encode_name : Option (List ℕ) → Result (Option (List ℕ))
encode_name none = ok none
encode_name (some name) = do e ← encode_base64 name; ok (some e)

unfoldable pub build_message : TinyXml → Option (List ℕ) → List ℕ → Result (List ℕ)
unfolding encode_name
build_message x name content = do
  n ← encode_name name
  c ← encode_base64 content
  ok (x.print (message_doc n c))

-- FirstChildElement: the first child that is an element, as its children.
unfoldable pub first_element : Nodes → Option Nodes
first_element nil = none
first_element (cons (element tag attributes children) rest) = some children
first_element (cons declaration rest) = first_element rest
first_element (cons (text t) rest) = first_element rest

-- What an element's text sets: the name or the content, or nothing.
unfoldable pub set_field : List ℕ → List ℕ → List ℕ × List ℕ → Result (List ℕ × List ℕ)
set_field tag t (name, content) =
    if bytes_eq tag tag_name
    then (do n ← decode_base64 t; ok (n, content))
    else if bytes_eq tag tag_content
    then (do c ← decode_base64 t; ok (name, c))
    else ok (name, content)

-- The loop over the children of an element, of which only the texts count.
unfoldable pub read_texts : List ℕ → Nodes → List ℕ × List ℕ → Result (List ℕ × List ℕ)
read_texts tag nil out = ok out
read_texts tag (cons (text t) rest) out = do out' ← set_field tag t out; read_texts tag rest out'
read_texts tag (cons declaration rest) out = read_texts tag rest out
read_texts tag (cons (element e attributes children) rest) out = read_texts tag rest out

unfoldable pub read_elements : Nodes → List ℕ × List ℕ → Result (List ℕ × List ℕ)
read_elements nil out = ok out
read_elements (cons (element tag attributes children) rest) out = do
  out' ← read_texts tag children out
  read_elements rest out'
read_elements (cons declaration rest) out = read_elements rest out
read_elements (cons (text t) rest) out = read_elements rest out

read_root : Option Nodes → List ℕ × List ℕ → Result (List ℕ × List ℕ)
read_root none out = ok out
read_root (some children) out = read_elements children out

-- XMLReadMessage(str, name, content): the name and the content afterwards.
unfoldable pub read_message : TinyXml → List ℕ → List ℕ × List ℕ → Result (List ℕ × List ℕ)
unfolding read_root
read_message x str out = read_root (first_element (x.parse str)) out

-- XMLSetUsernameToMessage(str, name): the new text.
unfoldable pub set_username_to_message : TinyXml → List ℕ → List ℕ → Result (List ℕ)
set_username_to_message x str name = do
  (tmp_name, content) ← read_message x (before_zero str) ([], [])
  build_message x (some (before_zero name)) (before_zero content)

-- XMLBuildUpdate(name, status).
unfoldable pub update_doc : List ℕ → List ℕ → Nodes
update_doc name status =
    let head = element tag_name ((attribute_status, status) ∷ []) (cons (text name) nil) in
    cons declaration (cons (element tag_update [] (cons head nil)) nil)

unfoldable pub build_update : TinyXml → List ℕ → List ℕ → Result (List ℕ)
build_update x name status = do
  n ← encode_base64 name
  s ← encode_base64 status
  ok (x.print (update_doc n s))

-- Attribute(key): the value of the first attribute of that name.
unfoldable pub attribute : List ℕ → List (List ℕ × List ℕ) → Option (List ℕ)
attribute key [] = none
attribute key ((k, v) ∷ rest) = if bytes_eq k key then some v else attribute key rest

set_status : Option (List ℕ) → List ℕ × List ℕ → Result (List ℕ × List ℕ)
set_status none out = ok out
set_status (some v) (name, status) = do s ← decode_base64 v; ok (name, s)

read_status : List ℕ → List (List ℕ × List ℕ) → List ℕ × List ℕ → Result (List ℕ × List ℕ)
read_status tag attributes out =
    if bytes_eq tag tag_name then set_status (attribute attribute_status attributes) out else ok out

read_update_texts : List ℕ → Nodes → List ℕ × List ℕ → Result (List ℕ × List ℕ)
read_update_texts tag nil out = ok out
read_update_texts tag (cons (text t) rest) (name, status) = do
  n ← if bytes_eq tag tag_name then decode_base64 t else ok name
  read_update_texts tag rest (n, status)
read_update_texts tag (cons declaration rest) out = read_update_texts tag rest out
read_update_texts tag (cons (element e attributes children) rest) out =
    read_update_texts tag rest out

unfoldable pub read_update_elements : Nodes → List ℕ × List ℕ → Result (List ℕ × List ℕ)
unfolding set_status read_status read_update_texts
read_update_elements nil out = ok out
read_update_elements (cons (element tag attributes children) rest) out = do
  out1 ← read_status tag attributes out
  out2 ← read_update_texts tag children out1
  read_update_elements rest out2
read_update_elements (cons declaration rest) out = read_update_elements rest out
read_update_elements (cons (text t) rest) out = read_update_elements rest out

read_update_root : Option Nodes → List ℕ × List ℕ → Result (List ℕ × List ℕ)
read_update_root none out = ok out
read_update_root (some children) out = read_update_elements children out

-- XMLReadUpdate(str, name, status).
unfoldable pub read_update : TinyXml → List ℕ → List ℕ × List ℕ → Result (List ℕ × List ℕ)
unfolding read_update_root
read_update x str out = read_update_root (first_element (x.parse str)) out
