-- ===== src/Lib.antt =====
-- The browser client of the voice demo (demo/main.js): one page that connects to a speech-to-
-- speech server over WebSocket or WebRTC, keeps a call alive, and runs the tools that the model
-- calls.
--
-- How its parts interact: the settings are read from localStorage and from the form; the
-- deployment's configuration says where a connection may go; a tap or a restart resolves the
-- target, asks for the microphone, makes a client and connects it; the client's events drive the
-- state that the page shows; the heartbeat and the beacons meter the call; a teardown ends it.
--
-- Files:
--   Base, Js         shared notation: native numbers and integers, text as UTF-16 code units, JSON
--                    values, errors as values, String(n) and trim.
--   Settings         loadSettings, saveSettings, the gate's threshold, in demo/main.js.
--   Connection       fetchConfig, connectionTarget, readSettingsFromForm; Url: buildDirectWsUrl;
--                    Panel: syncTransportUi, syncConnectionUi, openSettings and the form's listeners.
--   Tools            searchAvailable, activeToolDefs, loadTools; Snapshot: captureSnapshot; Host: fetch
--                    and what else the executor takes from the browser; Run: runTool, execWebSearch,
--                    execMcpCall, execLocalTime, execGlobalSearch; Panel: the tools panel, the search
--                    key and the webcam, with one turn of the event loop in Panel/Turn.
--   Devices          micConstraints, refreshAudioDeviceLists, fillDeviceSelect, primeMicPermission.
--   View             AppState, what setState and updateRestartAvailability show.
--   Gate             setGateThreshold, syncGateUi, dbToFraction, fractionToDb, gatePointerToDb,
--                    paintInputLevel and the listeners of the slider and of the pointer; Arc:
--                    arcPoint, fullArcD, initGateArc. Its other children are proofs.
--   Page             the page round the conversation: openSettings, promptServerUrl and the listeners of
--                    the settings button, the form, restart and the orb as far as they show or save,
--                    with the parts of Connection/Panel, Gate, Devices and View; the dialogs. Its
--                    children are proofs.
--   Session          the module's variables, the effects and the waits; Timers, Teardown, Start and
--                    Events hold the functions, Step one turn of the event loop, Boot the page's load.
--   Session/Claims   what the page holds of the server and gives back, as a machine of its own; its
--                    children relate every run to it and count the returns.
--   Session/Clients  the client objects: which are made, held and closed, and what is asked of them. Its
--                    lemmas take the property of them as a parameter; Made, Lost, Muted and Orderly
--                    fill it.
--   Session/Given, Session/Reports
--                    what a teardown tells the server, the client, the microphone and the account, and
--                    what the user is told of a failed start: the logs that Release and Failures state.
--   Session/Invariant, Release, Races, Restarts, Starts, Settled, Failures, Countdown, Devices/Kept,
--                    Devices/Unedited, Tools/Requests, Offered, Listing, Snapshot/Ladder, Panel/Kept,
--                    Panel/Overlaps, and the children of Settings and Connection: proofs.
--   Examples         the theorems at concrete inputs.
--
-- How code becomes a definition: a function that changes module variables takes the record of them
-- and returns it; what it does to the outside is an entry of the record's log, or, for the tools,
-- of the requests sent and of the tools pushed. An async function is cut at each await: what is to
-- follow is a task in the list of pending ones, and an event resumes any of them, so a list of
-- events is any interleaving of clicks, timers, client events and answers. An await of a function
-- that does not itself wait is run through. Numbers in settings are the doubles themselves
-- (integers of units of 2 ^ -1074); seconds and queue positions are naturals.
--
-- Parameters: the browser's Number (of a text), String (of a JSON value), JSON.parse, URL, fetch,
-- canvas and clock, floating-point sums, products and quotients, Math.log10, Math.cos and
-- Math.sin, the rounding of a scaled size, and truncateError of demo/ui/dom.js, which the
-- repository does not hold. What is relied on is a named hypothesis: Number(String(n)) is n on the
-- slider, String(s) is s for a string s, floating-point arithmetic keeps the order, is exact on
-- small integers and, up to 1024, right to 2 ^ -40, URL keeps a WebSocket scheme and reads back
-- what it prints, the canvas has a context.
--
-- Fuel: only the digits of String(n), n + 1 rounds for at most n digits.
--
-- Not modelled: the flash of the preview, audio (an event says whether an audio context could be
-- made), the chat panel, the account panel and the client object themselves (other files, not in
-- the repository); where the pointer stands round the button and the arctangent, a pointer event
-- carrying the angle; the focus, and what a native dialog does by itself, which is an event. The
-- options of the voices' select stand in the page's HTML, which the repository does not hold, and
-- are data of the panel; the tools' flags are stored as the JSON value that their text stands for.
-- The tools panel, the page and the conversation are three machines that share the configuration
-- and the settings; the last two both have the listeners of restartBtn and of the orb
-- (Page/Restarts is about the first).
pub mod Base
pub mod Js
pub mod Settings
pub mod Connection
pub mod Devices
pub mod Gate
pub mod Page
pub mod Tools
pub mod View
pub mod Session
mod Examples
