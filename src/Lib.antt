-- ===== src/Lib.antt =====
-- Verification of waylaunch, a keyboard-first Wayland launcher with a power overlay, a dropdown
-- terminal and an application switcher.
--
-- The program is a set of small policies behind interfaces, driven by an event loop: key, pointer
-- and clock events reach an input controller, which drives a state machine and a manager; what the
-- compositor, the file system and the processes answer comes in through backends. The policies are
-- modelled here, and the answers of the outside are arguments.
--
-- Files and what they model (paths from the repository's root):
--   Prelude, Prelude/*     the shared helpers: tests, lists, signed integers, text as bytes, decimal
--                          conversions, stepping round a ring.
--   Keys                   the keysyms that the controllers name.
--   Power/StateMachine     src/power/power_state_machine.cpp.
--   Power/Dialog           include/waylaunch/power/confirm_dialog.h and power_action.h.
--   Power/Manager          src/power/power_manager.cpp; `redraws` counts the change callback.
--   Power/Layout           src/power/power_layout.cpp.
--   Power/Controller       src/power/power_input_controller.cpp; `handle` is one event of the loop.
--   Power/Backend          src/power/power_action_backend.cpp.
--   Power/Invariant, Consent, Finality, LayoutBounds, Navigation, Argv, Actions, Countdown
--                          proofs about the overlay.
--   Dropdown/Manager       src/dropdown/dropdown_manager.cpp.
--   Dropdown/Geometry      src/dropdown/geometry_policy.cpp; proofs in Placement and Resize.
--   Dropdown/Focus         src/dropdown/focus_guard.cpp; proofs in Retract.
--   Dropdown/Supervisor    src/dropdown/session_supervisor.cpp; proofs in Backoff.
--   Dropdown/Tabs          src/dropdown/tab_strip.cpp; proofs in TabBar.
--   Dropdown/Ownership     src/dropdown/window_ownership.cpp; proofs in Selection and Slot.
--   Dropdown/Events        src/dropdown/hyprland_events.cpp; proofs in Framing.
--   Dropdown/Lifecycle     proofs about the dropdown's state machine.
--   Dropdown/State         src/dropdown/dropdown_state.cpp; proofs in SavedSizes.
--   Switcher/StateMachine  src/switcher/switcher_state_machine.cpp.
--   Switcher/Groups        include/waylaunch/switcher/app_group.h and toplevel_backend.h, and the
--                          grouping of src/switcher/app_switcher_manager.cpp.
--   Switcher/Manager       src/switcher/app_switcher_manager.cpp; requests to the backend are a log.
--   Switcher/Controller    src/switcher/switcher_input_controller.cpp.
--   Switcher/Focus         src/switcher/hyprland_focus.cpp, less its socket; proof in SafeAddress.
--   Switcher/Counting, Sorting, FocusTimes, Clock, Order, Bounds, Confirmation
--                          proofs about the switcher.
--   Dropdown/JsonString, Json, JsonPayload
--                          src/dropdown/hyprland_json.cpp; proofs in JsonRoundTrip, Surrogates.
--   History/Rows, Store    src/ui/history.cpp; proofs in RoundTrip and Pruning.
--   Search/Paths           src/util/search_util.cpp; proof in Abbreviation.
--   Content/Segments       the tokenizer of src/content/store.cpp; proofs in Agreement and Cover.
--   Content/Filter, Query  the predicates of a query and their SQL (src/content/store.cpp and
--                          include/waylaunch/content/store.h); proofs in Sizes, Placeholders
--                          and FreeText.
--   Content/Match          the MATCH expression of src/content/store.cpp; proof in Terms.
--   Content/Index          the statements of src/content/store.cpp that change the tables; proofs in
--                          Consistency and Upkeep, over Keys and LiveRows.
--   Content/Indexer        src/content/indexer.cpp; proofs in Freshness, Reconcile, FullPass and Subtree.
--   Calculator/Floats, Parser, Evaluator
--                          src/modes/calculator.cpp; Grammar says what an expression is and what it is
--                          worth, and the proof is in Meaning, over Spelling, Steps, Reading,
--                          Printed and Parsing; Termination, over Fuel and
--                          EnoughFuel, is about the recursion of the parser.
--   Theme/Scheme           apply_scheme and lighten_hex of src/config/matugen_theme.cpp; proof in Slots.
--   Launcher/Editor        the search field of src/ui/launcher_ui.cpp; proofs in Utf8 and Typing.
--   Launcher/Items         include/waylaunch/list_item.h, the layout of include/waylaunch/launcher_ui.h,
--                          and relayout and hit_test of src/ui/launcher_ui.cpp; proofs in Rows and Clicks.
--   Launcher/Providers     what src/ui/launcher_ui.cpp makes of its providers, which are given by the
--                          interface of include/waylaunch/providers/result_provider.h.
--   Launcher/Search        the results and the selection of src/ui/launcher_ui.cpp; proof in TopHit.
--   Launcher/Input         its events of keyboard, mouse and wheel; proofs in Invariant and Events.
--   Launcher/Worker        its worker thread beside the main thread; proofs in Delivery and Liveness.
--   Tests                  theorems at concrete inputs and runs of the models.
--
-- How it is modelled: a method returns the new object. Text is the list of its bytes. An `int` is
-- an integer without bound (its overflow is undefined in C++, and the sums stay in range for
-- screens and times that exist), but for the size predicates of a query, whose 64-bit products wrap
-- around; sizes are natural numbers. SQLite ends a text that is bound without its length at the
-- first NUL, as Content/Terms does. Clock readings are arguments. A pointer coordinate is given by
-- its floor, and in the launcher also by whether it is whole. The launcher's two threads take turns
-- by steps, each of which is what one of them does while it holds the mutex or between two times
-- that it does; a generation wraps at 2^64. Loops recur on their list or on a counter that the
-- source has itself: the walk up the process tree has the source's bound of 64. The loops of the
-- JSON scanner recur on fuel, for which the length of the text is enough, since each round takes a
-- byte or more. A time of src/content/store.cpp is read by strptime and timegm, a number of the
-- JSON by strtod, which are parameters. The numbers of the calculator are of an abstract type with
-- the operations that the code uses; parse_factor recurs on fuel, one more than the bytes of the
-- text.
--
-- Not modelled: drawing, the Wayland protocol objects, sockets, processes and files themselves; the
-- configuration, which toml++ reads; SQLite itself, the walk of directories, the extractors and the
-- scheduling of the daemon; the providers' own searches, but for their interface.
pub mod Prelude
pub mod Keys
pub mod Power
pub mod Dropdown
pub mod Switcher
pub mod History
pub mod Search
pub mod Content
pub mod Calculator
pub mod Theme
pub mod Launcher
mod Tests
