-- ===== src/Lib.antt =====
-- The web clients of the restaurant platform.
--
-- Two React applications talk to the platform's services. In the orders client a registered user
-- or a guest signs in, fills a basket from the menu and places an order. In the staff client a
-- member of the kitchen works on the items of the orders, on an interactive board, or a screen
-- shows the board as a display, with a token of the application instead of a user's. Both keep
-- the signed-in session in the tab's sessionStorage, and both have a token manager that obtains and
-- renews the application's token.
--
-- Files and sources:
--   AppToken             apps/orders-client/src/features/auth/appToken.ts, and its copy in
--                        apps/staff-client/src/features/auth/appToken.ts, with clearDisplayToken (AppToken.Display)
--   OrdersClient.Config  apps/orders-client/src/shared/api/config.ts
--   OrdersClient.Basket  apps/orders-client/src/features/basket/model.ts
--   OrdersClient.Api     apps/orders-client/src/features/{auth,menu,orders}/api.ts
--   OrdersClient.Session apps/orders-client/src/features/auth/session.ts
--   OrdersClient.App     apps/orders-client/src/App.tsx: the component; its Page is what it renders,
--                        and Browsing the page in use
--   OrdersClient.System  the component with the services: the calls that its handlers await, as a
--                        list, and the answers of features/*/api.ts to them, in any order
--   StaffClient.Config   apps/staff-client/src/shared/api/config.ts
--   StaffClient.Production, StaffClient.Api
--                        apps/staff-client/src/features/production/{types,api}.ts and
--                        apps/staff-client/src/features/auth/api.ts
--   StaffClient.Session  apps/staff-client/src/features/auth/session.ts
--   StaffClient.Board, StaffClient.App
--                        apps/staff-client/src/App.tsx: the board's pure functions, the component,
--                        with Lanes, Detail and Page for what it renders, and
--                        Browsing
--   StaffClient.System   the component, its effects and the services, in the same way
--   UiCommon.TextSize    apps/ui-common-libs/src/components/TextSizeControl.tsx
--   UiCommon.QrCode      apps/ui-common-libs/src/components/LocalNetworkQrCode.tsx
--   UiCommon.AppShell    apps/ui-common-libs/src/components/AppShell.tsx
--   UiCommon.Widgets     what is on a page: texts, and controls with the events that they cause;
--                        AppNavigationMenu.tsx, InfoCard.tsx, ChoiceCard.tsx
--   UiCommon.Appearance  what StatusBadge.tsx, ActionButton.tsx and FormTextField.tsx hand on to the
--                        component library
--   ProductionService    apps/production-service/internal/domain: the transitions of an item and
--                        the status of an order, against which the board is compared
--   Base                 what the files share: names of the library, tests, lists, texts, JSON
--                        values, promises and HTTP
-- Each component's laws stand in its child modules, the runs and examples in its module Tests.
--
-- State and operations. A component's useState variables are one record, State, with what it keeps
-- in sessionStorage. A handler that awaits is cut at its awaits: the part before the first await
-- (onLogin: on_login) returns the new state and the calls that it makes, and the part after an
-- await (on_login_settled) takes the call's outcome, a value or what was thrown. `handle` says what
-- an event does, `offered` what the screen lets the user do, `step` joins them, and `run` takes a
-- list of events: outcomes may arrive in every order, and late. In the staff client `react` adds
-- the effects that React runs after a rendering in which their dependencies have changed. The
-- token manager's state has the module's variables and the running calls of requestTokenWithRetry,
-- each with its attempt and its delay; its events are a caller, an answer, the end of a delay and
-- the timer.
--
-- Pages. What a component renders is a list of widgets, in the order of the document, with an open
-- navigation. A disabled button and a form with an empty required field cause nothing, and a field
-- takes no more than its maxLength. `act` is a gesture at a place of the page, whose handler runs
-- whatever `offered` says, an outcome that arrives, or a resize of the window; a rendering ends with
-- the effect that stores the text size. `browse` and `operate` are lists of them.
--
-- Systems. A `System` is a component's State and the list of the calls that it awaits. `perform` runs
-- a handler, and adds the calls that it makes to the list, each with the place in the code that goes
-- on with its outcome. An action is something that the user does, if the screen offers it, or the
-- answer to the call in some place of the list: so answers overtake each other, and come after a
-- logout. What the services and the token manager answer at that time is a `World`, a record of
-- functions from requests to outcomes. `drain` answers one call after the other, on fuel; `work`, the
-- answers that the awaited calls and the rest of their handlers take, at most three each, is enough.
--
-- Bounds. The retry loop is cut at its awaits; `drive` puts its turns together again, on fuel, and
-- five attempts with the delays between them are nine turns. Every other function is structural.
-- Numbers are natural: ids, quantities, times in milliseconds, window sizes in whole pixels, and
-- prices, which the service sends as decimal numbers: taken as a number of cents, they are added
-- exactly, where the source adds in floating point. The other numbers are exact in the source while
-- they are below 2^53. Texts are lists of code points; lengths are in UTF-16 units, as in the
-- source.
--
-- Parameters: JSON.parse, JSON.stringify, the storage, fetch, the environment, the request id, the
-- reading and the formatting of a date, the formatting of an amount, toUpperCase, the window's width
-- and address, and the configured address. A response's body is taken at its declared type, as the
-- source casts it; a session that is read back is taken at its declared type too, after the checks
-- of readAuthSession or readPersistedSession.
--
-- Not modelled: styles, most class names and the theme; the double effects of React's StrictMode in
-- development; and the services themselves, which are written in other languages.
pub mod AppToken
pub mod Base
pub mod OrdersClient
pub mod ProductionService
pub mod StaffClient
pub mod UiCommon
