-- ===== src/Lib.antt =====
-- The web client of Memos (memos/web/src): the logic of its editor, of its session, of its
-- Markdown tools, of its memo filters and of its layout, apart from what it renders.
--
-- How the parts interact. The editor's page (components/MemoEditor/index.tsx) keeps a draft in a
-- reducer's state, asks the validation whether it may be saved, and saves it through the memo
-- service, which uploads files and sends an update with a mask of the fields that changed. Every
-- call of the server goes through the interceptor of connect.ts, which adds the access token of
-- auth-state.ts, refreshes it once when it was refused, and leads to the page that
-- utils/auth-redirect.ts names when that fails. A sign-in over a provider stores a state that the callback
-- page validates before it sends the code; it then initialises the authentication context, which
-- keeps the user and the user's data in the query cache. The text area of the editor is changed by
-- the shortcuts and by the list completion. The memo lists are filtered by what the url holds and
-- put into the columns of the masonry view.
--
-- The files.
--   Base          shared helpers: tests, lists and texts over the native numbers, results and actions
--                 that may throw, and the browser's storage
--   Errors        getErrorMessage and handleError (lib/error.ts, services/errorService.ts)
--   MemoEditor    State and Reducer: state/types.ts and editorReducer; Validation: canSave; Service:
--                 buildUpdateMask, save and load of memoService and uploadFiles; Save: handleSave,
--                 the first load (hooks/useMemoInit.ts) and the draft cache
--                 (services/cacheService.ts, hooks/useAutoSave.ts); Attachments: utils/attachment.ts
--                 and components/MemoEditor/types/attachment.ts
--   Session       Token: auth-state.ts; Redirect: redirectOnAuthFailure; Refresh:
--                 createTokenRefreshManager; Interceptor: authInterceptor; OAuth: utils/oauth.ts;
--                 Auth: contexts/AuthContext.tsx; Callback: pages/AuthCallback.tsx; Instance:
--                 contexts/InstanceContext.tsx
--   Markdown      ListItem: utils/markdown-list-detection.ts, with Decimal for its numbers; TextArea:
--                 the actions of Editor/index.tsx; Shortcuts: Editor/shortcuts.ts and
--                 Editor/useListCompletion.ts; Suggestions: Editor/useSuggestions.ts,
--                 Editor/TagSuggestions.tsx, Editor/SlashCommands.tsx and Editor/commands.ts; Tasks:
--                 utils/markdown-manipulation.ts; Tags: utils/remark-plugins/remark-tag.ts
--   View          Masonry: components/MasonryView/distributeItems.ts and useMasonryLayout.ts; Theme:
--                 utils/theme.ts; Settings: contexts/ViewContext.tsx; Locale: utils/i18n.ts and
--                 i18n.ts; Calendar: components/ActivityCalendar/useCalendar.ts and utils.ts;
--                 TagTree: components/TagTree.tsx
--   Queries       the keys and the mutations of hooks/useMemoQueries.ts, useUserQueries.ts and
--                 useAttachmentQueries.ts over the query client; Store is a client that has the
--                 behaviour assumed of it
--   Filters       Query: contexts/MemoFilterContext.tsx; Condition: hooks/useMemoFilters.ts and
--                 hooks/useMemoSorting.ts; Stats: hooks/useFilteredMemoStats.ts
--   The modules Tests hold runs at concrete inputs.
--
-- How the code is read. An operation is named as in the source, in snake case: `handleSave` is
-- `handle_save`. A text that the program walks is its list of UTF-16 code units (of code points in
-- Tags, as there), and one that is only compared is a native string. A regular expression is the
-- function that it computes. A call that may throw gives a result, and passes on the world that it
-- left also when it throws. What happens while a call is awaited is an argument: the actions that
-- the user dispatches meanwhile, and the timer that stores a draft. The refresh that concurrent requests share is a step relation,
-- and so are the events of a popup and those of the masonry view.
--
-- Bounds. Numbers are exact: those of a list item are doubles in the source, exact below 2^53. The
-- parser of tags runs on fuel, the length of the text, and the printer of numbers on the number
-- itself; each step takes a character or a digit.
--
-- Parameters, with the documented behaviour that is assumed of them where a theorem needs it: the
-- clients of the server, the text forms of dates, of JSON and of URI components, lodash's isEqual,
-- uniqBy, countBy, orderBy and debounce, the conversions of protobuf timestamps, random bytes, the
-- Markdown parser, what every object inherits, the platform's table of tag characters, the style sheets, the dates of dayjs,
-- and the query client with the order in which it runs the callbacks of a mutation.
--
-- Not modelled: rendering, focus and scrolling, event listeners and the time that a timer takes,
-- which are the browser's and React's; the hooks that only call the query library; the generated
-- protobuf code; the Go server and the infrastructure, which are other programs.
pub mod Base
pub mod Errors
pub mod MemoEditor
pub mod Session
pub mod Markdown
pub mod View
pub mod Filters
pub mod Queries
