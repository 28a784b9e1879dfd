-- ===== src/Lib.antt =====
-- The scripts of Sunbird's Keycloak login theme, in ansible/artifacts/sunbird/login/resources/js:
-- telemetry_service.js with the telemetry library and the page's own code, which theme.properties
-- loads after jQuery, and login.js, the page's script without telemetry, whose line in
-- theme.properties is commented out.
--
-- The program. `TelemetrySyncManager` keeps a queue of events, posts them in batches, and puts a
-- batch back when its request fails. `Telemetry` keeps a configuration, a current context, object
-- and actor, and one envelope that every event is written into; `_dispatch` gives the event an id,
-- checks it, names the device, waiting for its fingerprint if it has to, and fires the document
-- event that the sync manager listens to. The page's script asks the server for the organisation,
-- initialises `Telemetry`, logs an impression, and then answers clicks: it logs them and leaves for
-- the portal, for a mobile or desktop application or for Google, by the values that the addresses
-- of the login pages carried and that sessionStorage keeps. It also shows and hides the elements of
-- the pages, guards the form for a new password, and leads through the merge of two accounts.
--
-- The files.
--   Base            names of the libraries, tests on numbers, lists.
--   Bag             lists up to their order, for the specification of the queue.
--   Js              numbers, texts and dynamic values of JavaScript, and their methods: `Js.Text`
--                   has replace, indexOf, split and Number, `Js.Value` has truthiness and
--                   Object.assign.
--   Web             storage areas and the document as maps in `Web.Store` and `Web.Dom`, and in
--                   `Web.Libs` what the page calls and does not implement.
--   State           the state of a page with its scripts, and the monad of state and exceptions:
--                   what was written before a throw stays written.
--   Telemetry.Types the variables of both objects; `Telemetry.Sync` is `TelemetrySyncManager`;
--                   `Telemetry.Event` is init, updateConfigurations, updateValues,
--                   getUpdatedValue and getEvent; `Telemetry.Dispatch` is _dispatch with
--                   getActorId; `Telemetry.Api` has the methods, one per kind of event;
--                   `Telemetry.Client` is detectClient; `Telemetry.Ponyfill` is objectAssign;
--                   `Telemetry.FingerPrint` is FPoptions.
--   Page.Session    getValueFromSession, getValue, initialize, storeLocation,
--                   storeValueForMigration.
--   Page.Elements   hideElement, unHideElement, addClass and the handlers that use them.
--   Page.Events     OnLoad, getOrgInfo and the events that the page logs.
--   Page.Redirect   forgetPassword, redirect, handleSsoEvent, handleGoogleAuthEvent,
--                   redirectToPortal, backToApplication; `Page.Navigate` is navigate.
--   Page.Password   validatePassword and matchPassword.
--   Page.Merge      decoratePage and handlePasswordFailure; `Page.Onload` is window.onload.
--   Page.Startup    the statements at the top level.
--   Login           login.js: `Login.Leave` has its handlers that leave the page, `Login.Navigate`
--                   navigate, `Login.Password` validatePassword and matchPassword,
--                   `Login.Onload` window.onload and makeDivUnclickable; `Login.Shared` has its
--                   functions that have the same text in telemetry_service.js, each as the
--                   definition under Page of this text.
--   Tests           a concrete browser, and runs on it.
-- The modules below one of these hold what is proved of it; `Telemetry.Accounting` is about the
-- events of the whole library, and `Telemetry.Proper` about the values that the page's own calls of
-- it leave.
--
-- The model. A function of the script is a function from a page to a result and a page. A callback
-- is a function of its own: `post_done` and `post_failed` for an answer to a batch,
-- `finger_print_ready` for the fingerprint, `org_info_answer` for the organisation; a property
-- that speaks of orders of callbacks has them as steps of a relation. An event that is queued is a
-- copy, as the script makes one; the envelope is one object, as it is there. Objects that a caller
-- hands over and changes later are copied. Numbers are whole, and a product with 0.001 is kept as
-- thousandths: rounding is not modelled. Texts are compared and cut by code points, and change case
-- in ASCII. `Number` reads digits with a fraction; signs, exponents and prefixes are not modelled,
-- but `timeDiff` as a text is read with its sign and three digits of a fraction (`Js.Thousandths`).
-- Of an object that `objectAssign` copies from, the inherited fields are modelled too; other objects
-- are their own fields.
-- The one recursion that is not on the structure of its argument is `decimal`, on fuel that is one
-- more than the number, whose quotient by 10 falls at each step.
--
-- Not modelled. The libraries that telemetry_service.js bundles (Ajv with the schemas, CryptoJS,
-- uuid, UAParser, Fingerprint2), jQuery and the browser are the parameter `Libs`, or steps that
-- answer. Left out are the console, preventDefault, the submission of a form once its timer is set,
-- getQueryStringValue, which nothing calls, and of FPoptions the regular expression for Pale Moon.
pub mod Base
pub mod Bag
pub mod Js
pub mod Web
pub mod State
pub mod Telemetry
pub mod Page
pub mod Login
pub mod Tests
