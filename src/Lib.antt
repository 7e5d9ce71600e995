-- ===== src/Lib.antt =====
-- A verification library for the web frontend of Outpost (go/web/frontend/src), the React program
-- that shows what the agents and the hub report: host metrics, processes, services, containers,
-- alerts, diagnostics and their history.
--
-- The program and its models. Hooks of api/ ask the server and keep the answers; functions of lib/
-- compute what is shown; components and routes choose rows, labels, colours and links. A handler
-- of a hook is a function from state to state, in two parts where it awaits an answer; a hook that
-- answers can overtake is a step relation, in which a request in flight settles at any time. A page
-- is a function from the hooks' state to a record of what it draws.
--   Api/Types: api/types.ts. Api/Client: api/client.ts (apiGet, apiPut, apiPost on what `fetch` gives).
--   Api/Alerts: api/useAlerts.ts; Acks is its step relation, which
--     Settling follows to rest, Keys the key of a silence.
--   Api/AlertConfig: api/useHubAlertConfig.ts; Form is routes/hub/HubAlertSettings.tsx
--     over it. Fields: the inputs of the form.
--   Api/HistorySamples: api/useHistorySamples.ts; Runs has its runs, loads and cancellation.
--   Api/Metrics: api/useMetrics.ts, useHubAgentMetrics.ts, useMeta.ts; Agents has
--     the requests of useHubAgentMetrics.ts while the agent of the page changes. Api/Polling:
--     api/useHubAgents.ts, useDiagnostics.ts, useHubConfig.ts, useContainerMetrics.ts.
--   Domain/AgentStatus, Format, HistorySeries, ServiceLink: lib/agentStatus.ts, format.ts,
--     historySeries.ts, serviceProcessLink.ts.
--   Components/ServiceTree, ServiceView and ServiceSplit: components/ServiceSplitView.tsx, its tree,
--     its list and the whole. ProcessView and ProcessSplit: ProcessSplitView.tsx, its table and the
--     whole. MasterDetail: layout/MasterDetailLayout.tsx and hooks/useScrollDetailOnSelect.ts.
--     DetailPanels: ProcessDetailPanel.tsx and ServiceDetailPanel.tsx.
--     Diagnostics: DiagnosticPanel.tsx. Tabs: PillTabs.tsx. Bars: MetricCard.tsx. CopyButton:
--     CopyButton.tsx, with its writes and timers as a step relation. TimeBar: HistoryTimeBar.tsx and
--     TimeRangePicker.tsx. TrendChart: MetricTrendChart.tsx.
--   Navigation: hooks/useAgentBasePath.ts and isHistoryCapableRoute of app/AppShell.tsx. Its child
--     Sidebar: components/HubSidebarNav.tsx. Its child Shell: app/AppLayout.tsx and app/AppShell.tsx
--     with components/LiveIndicator.tsx and LiveHistoryToggle.tsx. Its child Routing:
--     app/router.tsx. Its child Matching: the router as an interface with laws, and an instance that meets them.
--   Routes/Query: the parameters of a URL as an interface with laws, and instances that meet them.
--     Routes/Workbench: what routes/processes/ProcessesPage.tsx and routes/services/ServicesPage.tsx
--     keep in the URL. Routes/HistoryWorkbench: components/HistoryWorkbench.tsx with
--     context/MetricsContext.tsx. Routes/PageView: the early returns and the frame that the two pages
--     share; Routes/ProcessesPage and Routes/ServicesPage: each page as a whole, its split view in
--     that frame; Routes/Related: where the links of their panels lead. A page and its content read
--     the metrics each for itself: from the nearest provider, or else from a hook of its own.
--     Routes/Containers, ContainerPanel and ContainersPage: routes/containers/ContainersPage.tsx, its
--     list, the panel and the whole. Routes/ContainerMetrics:
--     routes/container-metrics/ContainerMetricsPage.tsx and ContainerMetricsOverview.tsx; Contents has
--     the pages that stand in the tabs of a container.
--     Routes/Diagnostics: routes/diagnostics/DiagnosticsPage.tsx.
--   Routes/Snapshot: hooks/useSelectedHistorySnapshot.ts. Routes/Hub: the cards of routes/hub/HubPage.tsx,
--     Routes/HubPage: the page.
--     Routes/Layout: routes/hub/HubAgentLayout.tsx with context/HistoryViewContext.tsx; Switch has the
--     sequences of renders and choices. Routes/Alerts:
--     the rows of routes/alerts/AlertsPage.tsx and routes/hub/HubAgentDashboard.tsx, Routes/AlertsPage:
--     both pages. Routes/Dashboard:
--     routes/dashboard/DashboardPage.tsx. Routes/History: routes/dashboard/DashboardHistoryView.tsx
--     and the parts of components/HistoryWorkbench.tsx.
--   Common: texts, lists, sorting and numbers that the others share. Examples: runs on data.
--
-- Texts are lists of UTF-16 code units. Numbers that count are naturals; measured numbers are of a
-- type F with the engine's operations (Common/Floats). What the engine or a library gives is an
-- argument: toLowerCase, localeCompare, encodeURIComponent, Date, the clock, and the translations.
-- `sort` is a stable insertion sort by the sign of the comparison.
--
-- Bounds and fuel. The loop of formatBytes has four rounds: its unit index ends at 3. A number is
-- printed in one round for each digit, and n + 1 rounds are enough for n. Sizes are below 2^53,
-- where dividing a double by 1024 is exact. What rounding keeps is asked for sums up to 1024 only.
--
-- Not modelled: the server (go/internal, go/cmd) and its protocols; markup and styles; how
-- the router matches a path, beyond the laws of Navigation/Matching, and which link it marks; the
-- scroll itself; tests and scripts.
pub mod Common
pub mod Api
pub mod Domain
pub mod Components
pub mod Navigation
pub mod Routes
pub mod Examples
