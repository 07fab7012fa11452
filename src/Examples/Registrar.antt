-- ===== src/Examples/Registrar.antt =====
-- The registrar at concrete values.
use web_cloud_disk.Base.{[], ◌∷◌, Bytes}
use web_cloud_disk.Flow.{Ensures, Always}
use web_cloud_disk.Config.Types.{default_consul}
use web_cloud_disk.Discovery.Registrar.Registration.{
  Operation, register, deregister, session, Agrees, OnlyHeld, session-Agrees,
}
use mathlib.Core.List.{List}

-- "user" at "10.0.0.1"
abbrev name : Bytes
name = b'u' ∷ b's' ∷ b'e' ∷ b'r' ∷ []

abbrev address : Bytes
address = b'1' ∷ b'0' ∷ b'.' ∷ b'0' ∷ b'.' ∷ b'0' ∷ b'.' ∷ b'1' ∷ []

abbrev operations : List Operation
operations = register name address 9601 ∷ deregister ∷ deregister ∷ []

session_example :
    Ensures (Agrees default_consul) [] (session default_consul operations [])
    × Always (OnlyHeld default_consul) [] (session default_consul operations [])
session_example = session-Agrees default_consul operations
