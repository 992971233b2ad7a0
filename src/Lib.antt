-- ===== src/Lib.antt =====
-- Models of the parts of Pudge Gaming Manager that decide what happens to the machine: the tweak
-- engine with its database, its crash recovery and its history, the registry and the services behind
-- their guards, the moving and deleting of folders, the gate of the cleanup, the hosts block, the Steam
-- reset, the profile of a club PC, and the score that the program shows.
--
-- The program scans a Windows PC, plans a list of reversible changes (tweaks), shows the plan, and
-- applies what the operator confirms. `TweakEngine` drives every tweak through scan, validation, a
-- stored backup, the change, its verification and, on failure, the rollback. `RunStore` writes each step
-- to SQLite; at the next start `find_interrupted` reports what a dead process left behind. The score
-- reads the scans of hardware and network and changes nothing. The pipeline builds a preview at the level
-- that the operator chose and hands the confirmed part of it to the engine. A Steam reset and a folder
-- operation have plans of their own, which are shown before anything is deleted.
--
-- Files, and the code that they model (paths from the repository's root):
--   Tweak, Tweak/Errors: pudge_gaming_manager/core/optimization/tweak.py and
--     pudge_gaming_manager/utilities/exceptions.py. A `Tweak M` is the record of a class's methods on
--     a machine `M` that is a parameter: a method may return, raise, or never return.
--   Session, Session/Rows: `execute` of pudge_gaming_manager/database/connection.py and the tables of
--     pudge_gaming_manager/database/schema.py. The field `fates` says of each statement whether it
--     commits, is refused, or is the one at which the process dies; `clock` and `is_admin` stand for
--     the system's. `calls` is a log of the tweak's calls, which the code does not keep.
--   Store: pudge_gaming_manager/core/optimization/store.py, `record_audit` of connection.py and
--     `audit_event` of pudge_gaming_manager/utilities/logging_setup.py.
--   Engine/Planning: `PlannedChange`, `Plan`, `plan`, `_gate` and `with_selection` of
--     pudge_gaming_manager/core/optimization/engine.py.
--   Engine: `apply`, `_execute` and `_fail_and_rollback` of engine.py; a `try` block and what follows
--     it is a function each, composed in the code's order.
--   Recovery: pudge_gaming_manager/core/optimization/recovery.py.
--   TreeDelete, TreeDelete/Kinds: pudge_gaming_manager/utilities/tree_delete.py. What the kernel answers
--     is the parameter `Kernel`; a tree is what the enumerations return.
--   Floats: Python's float as a parameter, with the laws of its comparisons.
--   Health, Network: pudge_gaming_manager/hardware/models.py and pudge_gaming_manager/network/models.py.
--   Score, Score/Parts, Score/Link: pudge_gaming_manager/core/scoring/score.py.
--   Prelude: helpers on numbers, lists and texts. The other children hold lemmas and theorems, Samples
--     concrete inputs for them.
--   Vdf: pudge_gaming_manager/games/steam/vdf.py, on the list of a text's code points. `loads` runs on
--     fuel, one more than the length of the text; each turn of a loop reads a character at least.
--   Registry, Registry/Keys: pudge_gaming_manager/windows/registry/manager.py. `winreg` is the parameter
--     `Winreg`, whose calls may answer anything; `IsRegistry` states that Windows keeps what it accepts.
--   RegistryTweak: pudge_gaming_manager/core/optimization/tweaks/registry_value.py, an instance of the
--     record `Tweak`. Engine/Undoing states the contract that the engine relies on.
--   History: pudge_gaming_manager/core/optimization/history.py, on the tables and actions of Session.
--   Folders, Folders/Planning: pudge_gaming_manager/windows/folder_ops.py. The calls on the disk are the
--     parameter `Files`; `IsDisk` in Folders/Disk states what the program relies on.
--   Cleanup, Cleanup/Rules: pudge_gaming_manager/windows/cleanup/rules.py and the delete-time gate of
--     pudge_gaming_manager/windows/cleanup/engine.py. What is read of paths and files is `Reads`.
--   Services: pudge_gaming_manager/windows/services/manager.py. PowerShell is the parameter `PowerShell`.
--   Hosts, Hosts/Texts: pudge_gaming_manager/windows/hosts.py, and the operations of Python on texts that
--     it uses. The hosts file is the parameter `HostsFile`; `IsHostsFile` states that it keeps what is
--     written. Services/Restoring states what is expected of PowerShell, `IsPowerShell`.
--   Steam, Steam/Wiping: pudge_gaming_manager/games/steam/wipe.py, with models.py and targets.py beside it.
--     The disk is the parameter `SteamDisk`, whose calls may answer anything; the log of deletions is kept
--     for the theorems.
--   Golden, Golden/Comparing: pudge_gaming_manager/core/profiles/golden.py, on the records of Health, with
--     the ranges of core/profiles/schema.py. Python's float is the parameter `Floats`.
--   Pipeline: pudge_gaming_manager/core/optimization/pipeline.py, on the actions of Engine; the list of
--     tweaks, the restore point and the second scan are arguments.
--
-- Choices: every loop is structural recursion, on a list or on a tree, but for the reader of `Vdf`. Numbers
-- are natural numbers, floats are the parameter `Floats`. Values that a tweak observes are null, a
-- number, a text, or bytes or a list, which stand by the text that `str` makes of them. A row holds the
-- value; `History.stored_text` is the text that its column has. `uuid4`, the clock and `str.lower` are
-- parameters.
--
-- Not modelled: progress callbacks, logging and the column `username`; the thread pool of the tree
-- delete, whose results are taken in order; ctypes, WMI, NVML, registry, service and network calls; the
-- graphical interface; and the components that use the modelled ones (the scan and the deletion of the
-- cleanup, the other sections of a profile, settings, reports, the libraries of Steam).
pub mod Prelude
pub mod Tweak
pub mod Services
pub mod Session
pub mod Store
pub mod Cleanup
pub mod Engine
pub mod Recovery
pub mod TreeDelete
pub mod Samples
pub mod Floats
pub mod Folders
pub mod Health
pub mod History
pub mod Network
pub mod Score
pub mod Registry
pub mod RegistryTweak
pub mod Vdf
pub mod Hosts
pub mod Steam
pub mod Pipeline
pub mod Golden
