-- ===== src/Types.antt =====
-- src/types.h and src/common/consts.h: the structures that the BPF programs keep in their maps
-- and on their stacks, and the constants. An integer field is a number; the operations that
-- store into it keep it below its width. A `char` array of fixed length is a list.
mod Ops
mod Consts
mod Records
mod Args
unfoldable pub use Ops.*
unfoldable pub use Consts.*
unfoldable pub use Records.*
pub use Args.*
