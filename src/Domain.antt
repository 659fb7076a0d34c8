-- ===== src/Domain.antt =====
-- internal/domain: the text values, the reference snapshots and the role policy. The function
-- `norm.NFC.String` of golang.org/x/text is the parameter `nfc` of every constructor that
-- normalises its text.
pub mod User
pub mod MailAddress
pub mod Handle
pub mod Membership
pub mod Refs
pub mod MessageText
mod Examples
