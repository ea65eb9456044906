-- ===== src/Programs/Context/Start.antt =====
-- What a program finds after its initialisation.
use stackplz.Base.{◌≡◌, arith, some}
use stackplz.Kernel.{Config}
use stackplz.Programs.World.{World, Host, Session}
use stackplz.Programs.Context.{init_program_data}

-- The maps other than the event's, and what was sent, are as before; the record is empty.
pub record Started (cfg : Config) (w : World) (s : Session) : Type 0 where
  pub world : s.world ≡ w
  pub fresh : s.event.buf_off ≡ 0
  pub argnum : s.event.context.argnum ≡ 0
  pub config : cfg.base_config ≡ some s.config

-- The maps other than the event's, and what was sent, are as before.
pub record Kept (w w' : World) : Type 0 where
  pub op_ctx_map : w'.op_ctx_map ≡ w.op_ctx_map
  pub ctx_regs_map : w'.ctx_regs_map ≡ w.ctx_regs_map
  pub child_parent_map : w'.child_parent_map ≡ w.child_parent_map
  pub strs : w'.strs ≡ w.strs
  pub out : w'.out ≡ w.out

module _ (h : Host) (cfg : Config) (w : World) where
  pub init-Started : {s : Session} → (init_program_data h cfg w).0 ≡ some s → Started cfg w s
  unfolding init_program_data
  init-Started e = ground arith

  pub init-Kept : Kept w (init_program_data h cfg w).1
  unfolding init_program_data
  init-Kept = ground arith
