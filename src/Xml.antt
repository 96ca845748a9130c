-- ===== src/Xml.antt =====
-- src/shared/xml-message.cpp: the texts of messages and updates, over TinyXML.
pub mod Defs
pub mod Messages
