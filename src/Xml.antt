-- ===== src/Xml.antt =====
-- The XML library, talk/xmllite: qualified names, elements, the stack of namespace bindings, the
-- printer and the builder.
pub mod QName
pub mod Element
pub mod NsStack
pub mod Printer
pub mod Builder
