-- ===== src/Recorder/Layout/Oversized.antt =====
-- What `rsdk_format` writes for a chunk that is larger than the disk.
use nt.Prelude.{some, ℕ}
use nt.Recorder.Layout.{FormatEnv, FormatOpt, option_or}

-- The slots per chunk that formatting lays out: those asked for, or the build's.
abbrev pub slots_of : FormatEnv → FormatOpt → ℕ
slots_of env opt = option_or (some opt) (λ o. o.slots_per_chunk) env.cfg_slots
