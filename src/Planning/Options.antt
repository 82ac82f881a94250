-- ===== src/Planning/Options.antt =====
-- The keys of a plan that say which instance of a lab it is (rodeo/instances.py).
use rodeo_cli.Base.{ℕ, suc, pos, ◌<>◌, true, Outcome, ok, err, leb, if◌then◌else◌}
use rodeo_cli.Base.Dict.{Dict}
use rodeo_cli.Portal.Python.{Python}
use rodeo_cli.Config.Value.{Value, get_or, or_else, repr_of}
use rodeo_cli.Planning.Instances.{ShiftError}

module _ (py : Python) where
  unfoldable pub bad_instance : Value → ShiftError
  bad_instance v =
      ShiftError.config_error ("instance must be an integer 0..99 (got " <> (repr_of py v <> ")"))

  -- An int from 0 to 99; a Bool is none.
  unfoldable pub instance_of : Value → Outcome ShiftError ℕ
  instance_of (Value.int (pos n)) =
      if leb n 99 then ok n else err (bad_instance (Value.int (pos n)))
  instance_of v = err (bad_instance v)

  unfoldable pub instance_number : Dict Value → Outcome ShiftError ℕ
  instance_number cfg =
      instance_of (or_else (get_or "instance" (Value.int (pos 0)) cfg) (Value.int (pos 0)))

-- An int that is positive; a Bool that is true counts as 1.
unfoldable pub stride_of : Value → Outcome ShiftError ℕ
stride_of (Value.int (pos (suc n))) = ok (suc n)
stride_of (Value.bool true) = ok 1
stride_of v = err (ShiftError.config_error "instance_port_stride must be a positive integer")

unfoldable pub port_stride : Dict Value → Outcome ShiftError ℕ
port_stride cfg = stride_of (get_or "instance_port_stride" (Value.int (pos 1000)) cfg)
