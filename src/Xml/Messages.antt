-- ===== src/Xml/Messages.antt =====
-- Round trips of the texts of src/shared/xml-message.cpp.
use project_secure_chat.Base.{
  ℕ, ◌≤◌, ◌≡◌, refl, ap, Option, none, some, List, [], ◌∷◌, length, ne→==,
}
use project_secure_chat.Base.Result.{ok, >>=-returned}
use project_secure_chat.Buffer.Defs.{bytes_eq}
use project_secure_chat.Buffer.Text.{before_zero, NonZero}
use project_secure_chat.Base64.Defs.{encode_base64, decode_base64}
use project_secure_chat.Base64.Roundtrip.{Bytes, encode_limit, decode-encode_base64}
use project_secure_chat.Xml.Defs.{
  TinyXml, message_doc, update_doc, build_message, build_update, read_message, read_update,
  read_elements, read_texts, set_field, first_element, set_username_to_message,
  read_update_elements, attribute,
}

-- A text that EncodeBase64 takes.
pub record Encodable (t : List ℕ) : Type 0 where
  pub bytes : Bytes t
  pub short : length t ≤ encode_limit

pub encoded :
    (t : List ℕ) → Encodable t → (e : List ℕ) × (encode_base64 t ≡ ok e) × (decode_base64 e ≡ ok t)
encoded t h = >>=-returned (encode_base64 t) decode_base64 (decode-encode_base64 t h.bytes h.short)

-- TinyXML reads back the document that it printed of a message with these texts.
abbrev pub ReadsBack : TinyXml → Option (List ℕ) → List ℕ → Type 0
ReadsBack x none content =
    (c : List ℕ)
    → encode_base64 content ≡ ok c
    → x.parse (x.print (message_doc none c)) ≡ message_doc none c
ReadsBack x (some name) content =
    (n c : List ℕ)
    → encode_base64 name ≡ ok n
    → encode_base64 content ≡ ok c
    → x.parse (x.print (message_doc (some n) c)) ≡ message_doc (some n) c

-- XMLReadMessage gives the name and the content back that XMLBuildMessage wrote, whatever the two
-- strings held before, where TinyXML reads back the document that it printed.
pub message_roundtrip :
    (x : TinyXml) (name content : List ℕ) (out : List ℕ × List ℕ)
    → Encodable name
    → Encodable content
    → ReadsBack x (some name) content
    → (str : List ℕ) × (build_message x (some name) content ≡ ok str)
      × (read_message x str out ≡ ok (name, content))
unfolding build_message read_message read_elements read_texts set_field first_element message_doc
    bytes_eq
message_roundtrip x name content (n0, c0) hn hc back =
    let (n, en, dn) = encoded name hn in
    let (c, ec, dc) = encoded content hc in
    (x.print (message_doc (some n) c), rw (en, ec), rw (back n c en ec, dn, dc))

before_zero_id : (t : List ℕ) → NonZero t → before_zero t ≡ t
unfolding before_zero
before_zero_id [] h = refl
before_zero_id (c ∷ t) h = rw (ne→== c 0 h.0) (ap (◌∷◌ c) (before_zero_id t h.1))

-- A text that TinyXML parses as a message whose content decodes to `content`, and whose claim of a
-- name decodes, if it makes one.
pub data IsMessage (x : TinyXml) (str content : List ℕ) : Type 0 where
  anonymous :
      (c : List ℕ)
      → decode_base64 c ≡ ok content
      → x.parse str ≡ message_doc none c
      → IsMessage x str content
  claims :
      (n c claimed : List ℕ)
      → decode_base64 n ≡ ok claimed
      → decode_base64 c ≡ ok content
      → x.parse str ≡ message_doc (some n) c
      → IsMessage x str content

read_content :
    (x : TinyXml) (str content : List ℕ)
    → IsMessage x str content
    → (name : List ℕ) × (read_message x str ([], []) ≡ ok (name, content))
unfolding read_message read_elements read_texts set_field first_element message_doc bytes_eq
read_content x str content (anonymous c dc p) = ([], rw (p, dc))
read_content x str content (claims n c claimed dn dc p) = (claimed, rw (p, dn, dc))

-- Whatever name a message claims, or if it claims none, XMLSetUsernameToMessage makes it a message
-- of the user `name` with the same content, where TinyXML reads back the document it prints and no
-- text holds a zero byte.
pub set_username_lem :
    (x : TinyXml) (str name content : List ℕ) (out : List ℕ × List ℕ)
    → IsMessage x str content
    → Encodable name
    → Encodable content
    → NonZero str
    → NonZero name
    → NonZero content
    → ReadsBack x (some name) content
    → (str' : List ℕ) × (set_username_to_message x str name ≡ ok str')
      × (read_message x str' out ≡ ok (name, content))
unfolding set_username_to_message
set_username_lem x str name content out is_message hn hc zs zn zc back =
    let (claimed, e) = read_content x str content is_message in
    let (str', built, reads) = message_roundtrip x name content out hn hc back in
    (
      str',
      rw (before_zero_id str zs, e, before_zero_id name zn, before_zero_id content zc, built),
      reads,
    )

-- XMLReadUpdate gives the name and the status back that XMLBuildUpdate wrote, whatever the two
-- strings held before, where TinyXML reads back the document that it printed.
pub update_roundtrip :
    (x : TinyXml) (name status : List ℕ) (out : List ℕ × List ℕ)
    → Encodable name
    → Encodable status
    → ((n s : List ℕ)
        → encode_base64 name ≡ ok n
        → encode_base64 status ≡ ok s
        → x.parse (x.print (update_doc n s)) ≡ update_doc n s)
    → (str : List ℕ) × (build_update x name status ≡ ok str)
      × (read_update x str out ≡ ok (name, status))
unfolding build_update read_update read_update_elements first_element update_doc attribute bytes_eq
update_roundtrip x name status (n0, s0) hn hs back =
    let (n, en, dn) = encoded name hn in
    let (s, es, ds) = encoded status hs in
    (x.print (update_doc n s), rw (en, es), rw (back n s en es, dn, ds))
