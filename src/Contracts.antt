-- ===== src/Contracts.antt =====
-- packages/contracts/src: the identifiers, capability maps and managed-task shapes that the parts
-- of the system exchange. A zod schema is read as the test that it declares; `parse` answers the
-- value as the schema leaves it (trimmed where the schema trims).
pub mod Text
pub mod Ids
pub mod Capabilities
pub mod Tasks
